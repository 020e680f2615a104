-- ===== src/Array/Laws.antt =====
-- src/list.c against a list: what each index reads after each operation.
use nvidia_vaapi_driver.Prelude.{
  not, ℕ, zero, suc, ◌+◌, ◌-◌, ◌/◌, ◌≤◌, ◌<◌, ◌≡◌, refl, ap, ◌∙◌, inl, inr, Option, none, some,
  List, [], ◌∷◌, ◌++◌, Bool, true, false, ltb, leb, ◌==◌, if◌then◌else◌, take, length, ◌&&◌,
  length-append, length-replicate, length-set, replicate, get_or, set, size_max, uint32_max, add32,
  arith, Bool-cases,
}
use nvidia_vaapi_driver.AppendableBuffer.Growth.{grow_by_half_bounds}
use nvidia_vaapi_driver.Array.{
  Array, Pointer, entries, Realloc, next_capacity, install, ensure_capacity, store_last,
  add_element, shift_down, remove_element_at, get_element_at,
}

pub record IsValid (arr : Array) : Type 0 where
  pub block : length (entries arr.buf) ≡ arr.capacity
  pub fits : arr.size ≤ arr.capacity
  pub small : arr.capacity ≤ uint32_max

-- What realloc promises of a block that grows: its length, and the old entries at its start.
abbrev pub IsRealloc : Realloc → Type 0
IsRealloc realloc =
    (old : Option (List Pointer)) (n : ℕ) (m : List Pointer)
    → realloc old n ≡ some m
    → length (entries old) ≤ n
    → (length m ≡ n) × (take (length (entries old)) m ≡ entries old)

module _ {ℓ} {A : Type ℓ} where
  get_or-set :
      (xs : List A) (i j : ℕ) (v d : A)
      → get_or (set xs i v) j d ≡ (if i == j && ltb j (length xs) then v else get_or xs j d)
  get_or-set [] i j v d = ground arith
  get_or-set (x ∷ xs) zero zero v d = ground arith
  get_or-set (x ∷ xs) zero (suc j) v d = ground arith
  get_or-set (x ∷ xs) (suc i) zero v d = ground arith
  get_or-set (x ∷ xs) (suc i) (suc j) v d = ground (arith, get_or-set xs i j v d)

  get_or-append_left :
      (xs ys : List A) (j : ℕ) (d : A) → j < length xs → get_or (xs ++ ys) j d ≡ get_or xs j d
  get_or-append_left [] ys j d h = absurd (omega arith)
  get_or-append_left (x ∷ xs) ys zero d h = refl
  get_or-append_left (x ∷ xs) ys (suc j) d h = get_or-append_left xs ys j d (omega arith)

length-shift_down : (k i : ℕ) (m : List Pointer) → length (shift_down k i m) ≡ length m
unfolding shift_down
length-shift_down zero i m = refl
length-shift_down (suc k) i m =
    length-shift_down k (i + 1) (set m i (get_or m (i + 1) none)) ∙ length-set m i _

shift_down_lem :
    (k i j : ℕ) (m : List Pointer)
    → i + k < length m
    → get_or (shift_down k i m) j none
      ≡ (if leb i j && ltb j (i + k) then get_or m (j + 1) none else get_or m j none)
unfolding shift_down
shift_down_lem zero i j m h = ground arith
shift_down_lem (suc k) i j m h =
    let m' = set m i (get_or m (i + 1) none) in
    ground (
      arith,
      shift_down_lem k (i + 1) j m',
      length-set m i (get_or m (i + 1) none),
      get_or-set m i j (get_or m (i + 1) none) none,
      get_or-set m i (j + 1) (get_or m (i + 1) none) none,
      ap (λ t. get_or m t none) {x = i} {y = j},
    )

-- `arr'` reads as `arr` does, and is well-formed.
pub record Same (arr arr' : Array) : Type 0 where
  pub valid : IsValid arr'
  pub same_size : arr'.size ≡ arr.size
  pub reads :
      (j : ℕ) → j < arr.size → get_or (entries arr'.buf) j none ≡ get_or (entries arr.buf) j none

next_capacity_bounds :
    (capacity required : ℕ)
    → capacity ≤ uint32_max
    → required ≤ uint32_max
    → required ≤ capacity + 1
    → (required ≤ next_capacity capacity required)
      × (capacity ≤ next_capacity capacity required)
      × (next_capacity capacity required ≤ uint32_max)
next_capacity_bounds capacity required c r step =
    ground (arith, grow_by_half_bounds uint32_max required capacity r c)

module _ (realloc : Realloc) (sound : IsRealloc realloc) where
  record Ensured (arr : Array) (required : ℕ) (r : Bool × Array) : Type 0 where
    same : Same arr r.1
    room : r.0 ≡ true → required ≤ r.1.capacity
    refused : r.0 ≡ false → r.1 ≡ arr

  install-Ensured :
      (arr : Array) (required capacity : ℕ) (m : Option (List Pointer))
      → IsValid arr
      → realloc arr.buf capacity ≡ m
      → required ≤ capacity
      → arr.capacity ≤ capacity
      → capacity ≤ uint32_max
      → Ensured arr required (install arr capacity m)
  unfolding install
  install-Ensured arr required capacity none v e r c s = record {
    same = record { valid = v; same_size = refl; reads = λ j h. refl };
    room = λ q. cc;
    refused = λ q. refl;
  }
  install-Ensured arr required capacity (some m) v e r c s =
      let (len, pre) = sound arr.buf capacity m e (omega arith) in
      let pre' : take arr.capacity m ≡ entries arr.buf = rw (← v.block) pre in
      let fresh : List Pointer = replicate (capacity - arr.capacity) none in
      record {
        same = record {
          valid = record {
            block = rw pre' (
                omega (
                  arith,
                  length-append (entries arr.buf) fresh,
                  length-replicate {A = Pointer} (capacity - arr.capacity) none,
                ));
            fits = omega arith;
            small = s;
          };
          same_size = refl;
          reads = λ j h. rw pre' (get_or-append_left (entries arr.buf) fresh j none (omega arith));
        };
        room = λ q. r;
        refused = λ q. cc;
      }

  ensure_capacity-Ensured :
      (arr : Array) (required : ℕ)
      → IsValid arr
      → required ≤ uint32_max
      → required ≤ arr.capacity + 1
      → Ensured arr required (ensure_capacity realloc arr required)
  unfolding ensure_capacity
  ensure_capacity-Ensured arr required v r step =
      let capacity = next_capacity arr.capacity required in
      let (lo, mono, hi) = next_capacity_bounds arr.capacity required v.small r step in
      elim (Bool-cases (leb required arr.capacity)) [
        | inl enough ↦ rw enough (record {
          same = record { valid = v; same_size = refl; reads = λ j h. refl };
          room = λ q. ground arith;
          refused = λ q. refl;
        })
        | inr short ↦
            rw short (elim (Bool-cases (not (capacity == 0) && ltb (size_max / capacity) 8)) [
              | inl over ↦ rw over (record {
                same = record { valid = v; same_size = refl; reads = λ j h. refl };
                room = λ q. cc;
                refused = λ q. refl;
              })
              | inr fits ↦ rw fits (install-Ensured arr required capacity _ v refl lo mono hi)
            ])
      ]

  -- What add_element has done: the new pointer stands behind the others, or nothing changed.
  pub record Added (arr : Array) (element : Pointer) (r : Bool × Array) : Type 0 where
    pub valid : IsValid r.1
    pub size : r.1.size ≡ (if r.0 then arr.size + 1 else arr.size)
    pub reads :
        (j : ℕ)
        → get_element_at r.1 j ≡ (if r.0 && j == arr.size then element else get_element_at arr j)

  store_last-Added :
      (arr : Array) (element : Pointer) (r : Bool × Array)
      → IsValid arr
      → arr.size < uint32_max
      → Ensured arr (arr.size + 1) r
      → Added arr element (store_last realloc element r)
  unfolding store_last get_element_at
  store_last-Added arr element (false, arr') v s t =
      rw (t.refused refl) (record { valid = v; size = refl; reads = λ j. refl })
  store_last-Added arr element (true, arr') v s t =
      let w = t.same.valid in
      let room = t.room refl in
      let count = length-set (entries arr'.buf) arr'.size element in
      let sum : add32 arr'.size 1 ≡ arr.size + 1 = omega (arith, t.same.same_size) in
      record {
        valid = record {
          block = count ∙ w.block;
          fits = omega (arith, t.same.same_size);
          small = w.small;
        };
        size = sum;
        reads = λ j. ground (
          arith,
          v.fits,
          v.block,
          t.same.reads j,
          t.same.same_size,
          get_or-set (entries arr'.buf) arr'.size j element none,
        );
      }

  -- add_element appends the pointer or leaves the array as it reads.
  pub add_element-Added :
      (arr : Array) (element : Pointer)
      → IsValid arr
      → Added arr element (add_element realloc arr element)
  unfolding add_element
  add_element-Added arr element v = elim (Bool-cases (arr.size == uint32_max)) [
    | inl full ↦ rw full (record { valid = v; size = refl; reads = λ j. refl })
    | inr more ↦
        let s : arr.size < uint32_max = ground arith in
        let e : add32 arr.size 1 ≡ arr.size + 1 = omega arith in
        rw (more, e)
          (store_last-Added arr element _ v s
            (ensure_capacity-Ensured arr (arr.size + 1) v (omega arith) (omega arith)))
  ]

-- What each index reads.
remove_element_at_reads :
    (arr : Array) (index j : ℕ)
    → IsValid arr
    → get_element_at (remove_element_at arr index) j ≡ (
        if ltb index arr.size && leb index j
        then get_element_at arr (j + 1)
        else get_element_at arr j)
unfolding remove_element_at get_element_at
remove_element_at_reads arr index j v = elim (Bool-cases (leb arr.size index)) [
  | inl out ↦ ground arith
  | inr within ↦
      let m = entries arr.buf in
      let k = arr.size - 1 - index in
      ground (
        arith,
        shift_down_lem k index j m (ground arith),
        length-shift_down k index m,
        get_or-set m (arr.size - 1) j none none,
        get_or-set (shift_down k index m) (arr.size - 1) j none none,
      )
]

pub remove_element_at-IsValid :
    (arr : Array) (index : ℕ)
    → IsValid arr
    → IsValid (remove_element_at arr index)
      × ((remove_element_at arr index).size
          ≡ (if ltb index arr.size then arr.size - 1 else arr.size))
unfolding remove_element_at
remove_element_at-IsValid arr index v =
    let m = entries arr.buf in
    let k = arr.size - 1 - index in
    ground (
      arith,
      length-shift_down k index m,
      length-set {A = Pointer} m (arr.size - 1) none,
      length-set {A = Pointer} (shift_down k index m) (arr.size - 1) none,
    )

-- What remove_element_at has done: an index out of range leaves the array alone; another takes its
-- entry out, moves those behind it one place down, and clears the slot that is no longer in use.
pub record Removed (arr : Array) (index : ℕ) (arr' : Array) : Type 0 where
  pub valid : IsValid arr'
  pub untouched : arr.size ≤ index → arr' ≡ arr
  pub shorter : index < arr.size → arr'.size + 1 ≡ arr.size
  pub cleared : index < arr.size → get_or (entries arr'.buf) arr'.size none ≡ none
  pub same_capacity : arr'.capacity ≡ arr.capacity
  pub before : (j : ℕ) → j < index → get_element_at arr' j ≡ get_element_at arr j
  pub behind :
      (j : ℕ) → index < arr.size → index ≤ j → get_element_at arr' j ≡ get_element_at arr (j + 1)

-- remove_element_at on a valid array: an index out of range changes nothing; for another the array
-- is one entry shorter and stays valid, the entries behind the index are one place further down,
-- those before it are where they were, and the slot that is no longer in use holds NULL.
pub remove_element_at-Removed :
    (arr : Array) (index : ℕ) → IsValid arr → Removed arr index (remove_element_at arr index)
unfolding remove_element_at
remove_element_at-Removed arr index v =
    let m = entries arr.buf in
    let k = arr.size - 1 - index in
    record {
      valid = (remove_element_at-IsValid arr index v).0;
      untouched = λ out. ground arith;
      shorter = λ within. ground (arith, (remove_element_at-IsValid arr index v).1);
      cleared = λ within. ground (
        arith,
        length-shift_down k index m,
        get_or-set m (arr.size - 1) (arr.size - 1) none none,
        get_or-set (shift_down k index m) (arr.size - 1) (arr.size - 1) none none,
      );
      same_capacity = ground arith;
      before = λ j h. ground (arith, remove_element_at_reads arr index j v);
      behind = λ j h l. ground (arith, remove_element_at_reads arr index j v);
    }
