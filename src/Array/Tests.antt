-- ===== src/Array/Tests.antt =====
-- The theorems of Array at an array of two pointers.
use nvidia_vaapi_driver.Prelude.{
  ◌-◌, ◌≡◌, refl, none, some, [], ◌∷◌, ◌++◌, length, replicate, arith, take-append_left,
  length-append, length-replicate,
}
use nvidia_vaapi_driver.Array.{Array, Pointer, entries, Realloc, add_element, remove_element_at}
use nvidia_vaapi_driver.Array.Laws.{
  IsValid, IsRealloc, Added, add_element-Added, Removed, remove_element_at-Removed,
}

-- A realloc that never fails and fills with NULL.
abbrev extend : Realloc
extend old n = some (entries old ++ replicate (n - length (entries old)) none)

extend-IsRealloc : IsRealloc extend
extend-IsRealloc old n m e h =
    let same : entries old ++ replicate (n - length (entries old)) none ≡ m = cc in
    rw (← same) (
      omega (
        arith,
        length-append (entries old) (replicate {A = Pointer} (n - length (entries old)) none),
        length-replicate {A = Pointer} (n - length (entries old)) none,
      ),
      take-append_left (length (entries old)) (entries old) _ refl,
    )

abbrev two : Array
two = record { buf = some (some 10 ∷ some 20 ∷ []); size = 2; capacity = 2 }

two-IsValid : IsValid two
two-IsValid = omega arith

-- Removing the first entry moves the second down and clears its place.
removal_runs :
    remove_element_at two 0 ≡ record { buf = some (some 20 ∷ none ∷ []); size = 1; capacity = 2 }
unfolding remove_element_at
removal_runs = refl

add_element-Added_example :
    Added extend extend-IsRealloc two (some 30) (add_element extend two (some 30))
add_element-Added_example = add_element-Added extend extend-IsRealloc two (some 30) two-IsValid

remove_element_at-Removed_example : Removed two 0 (remove_element_at two 0)
remove_element_at-Removed_example = remove_element_at-Removed two 0 two-IsValid
