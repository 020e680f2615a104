-- ===== src/Array.antt =====
-- The growable pointer array of src/list.c.
-- A pointer is a number, and `none` is NULL. The allocator's calls are arguments: `realloc` of the
-- whole block, and the pointer that `calloc` returns.
pub mod Laws
mod Tests
use nvidia_vaapi_driver.Prelude.{
  ℕ, zero, suc, ◌+◌, ◌-◌, ◌*◌, ◌/◌, Option, none, some, List, [], ◌∷◌, ◌++◌, Bool, true, false,
  ◌||◌, ◌&&◌, not, ltb, leb, ◌==◌, if◌then◌else◌, take, replicate, get_or, set, size_max,
  uint32_max, add32,
}
use nvidia_vaapi_driver.AppendableBuffer.{is_null}
use nvidia_vaapi_driver.AppendableBuffer.Growth.{grow_by_half}

abbrev pub Pointer : Type 0
Pointer = Option ℕ

pub record Array : Type 0 where
  pub buf : Option (List Pointer)
  pub size : ℕ
  pub capacity : ℕ

-- The entries of a block, none for NULL.
abbrev pub entries : Option (List Pointer) → List Pointer
entries none = []
entries (some m) = m

-- The old block and the new number of entries; `none` if the call fails.
abbrev pub Realloc : Type 0
Realloc = Option (List Pointer) → ℕ → Option (List Pointer)

abbrev next_capacity : ℕ → ℕ → ℕ
next_capacity capacity new_capacity =
    if capacity == 0 then 16 else grow_by_half uint32_max new_capacity capacity

-- `memset` of the part behind the old capacity.
install : Array → ℕ → Option (List Pointer) → Bool × Array
install arr capacity none = (false, arr)
install arr capacity (some m) = (
  true,
  record arr {
    buf = some (take arr.capacity m ++ replicate (capacity - arr.capacity) none);
    capacity = capacity;
  },
)

module _ (realloc : Realloc) where
  pub ensure_capacity : Array → ℕ → Bool × Array
  unfolding install
  ensure_capacity arr new_capacity =
      if leb new_capacity arr.capacity
      then (true, arr)
      else let capacity = next_capacity arr.capacity new_capacity in
        if not (capacity == 0) && ltb (size_max / capacity) 8
        then (false, arr)
        else install arr capacity (realloc arr.buf capacity)

  store_last : Pointer → Bool × Array → Bool × Array
  store_last element (false, arr) = (false, arr)
  store_last element (true, arr) = (
    true,
    record arr { buf = some (set (entries arr.buf) arr.size element); size = add32 arr.size 1 },
  )

  pub add_element : Array → Pointer → Bool × Array
  unfolding store_last
  add_element arr element =
      if arr.size == uint32_max
      then (false, arr)
      else store_last element (ensure_capacity arr (add32 arr.size 1))

  give_up : Pointer → Bool × Array → Pointer × List Pointer × Array
  give_up element (false, arr) = (none, element ∷ [], arr)
  give_up element (true, arr) = (element, [], arr)

  -- `element` is what `calloc` returned. The result: the pointer, what was passed to `free`, the array.
  pub alloc_and_add_element : Array → Pointer → Pointer × List Pointer × Array
  unfolding give_up
  alloc_and_add_element arr none = (none, none ∷ [], arr)
  alloc_and_add_element arr (some element) = give_up (some element) (add_element arr (some element))

-- `for (i = index; i < size; i++) buf[i] = buf[i + 1]`, with the number of rounds left.
pub shift_down : ℕ → ℕ → List Pointer → List Pointer
shift_down zero i m = m
shift_down (suc rounds) i m = shift_down rounds (i + 1) (set m i (get_or m (i + 1) none))

pub remove_element_at : Array → ℕ → Array
unfolding shift_down
remove_element_at arr index =
    if leb arr.size index
    then arr
    else let size = arr.size - 1 in
      let m = entries arr.buf in
      let m' = if ltb index size then shift_down (size - index) index m else m in
      record arr { buf = some (set m' size none); size = size }

pub get_element_at : Array → ℕ → Pointer
get_element_at arr index =
    if is_null arr.buf || leb arr.size index then none else get_or (entries arr.buf) index none

-- The pointer that is passed to `free`, and the array.
pub remove_and_free_element_at : Array → ℕ → Pointer × Array
remove_and_free_element_at arr index = (get_element_at arr index, remove_element_at arr index)

pub get_size : Array → ℕ
get_size arr = arr.size
