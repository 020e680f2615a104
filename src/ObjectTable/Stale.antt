-- ===== src/ObjectTable/Stale.antt =====
-- src/object-table.c over many calls: how long an id that was removed stands for nothing.
use nvidia_vaapi_driver.Prelude.{
  ℕ, suc, ◌+◌, ◌-◌, ◌/◌, ◌%◌, ◌^◌, ◌≤◌, ◌<◌, ◌≡◌, ◌≢◌, refl, sym, ◌∙◌, Option, none, some, List, [],
  ◌∷◌, Bool, true, false, not, ◌&&◌, ◌==◌, if◌then◌else◌, arith, Bool-cases, inl, inr,
}
use nvidia_vaapi_driver.ObjectTable.{
  Object, ObjectTable, next_generation, grown_capacity, grow_table, take_slot, allocate,
  after_growth, pop_free, remove, remove_from,
}
use nvidia_vaapi_driver.AppendableBuffer.{is_null}
use nvidia_vaapi_driver.ObjectTable.FreeList.{fresh_slots_lem}
use nvidia_vaapi_driver.ObjectTable.Invariant.{IsValid}
use nvidia_vaapi_driver.ObjectTable.Steps.{push_same}
use nvidia_vaapi_driver.ObjectTable.Lookup.{found, remove-found}
use nvidia_vaapi_driver.ObjectTable.Allocate.{allocate-Allocated}
use nvidia_vaapi_driver.ObjectTable.Remove.{
  remove-IsValid, next_generation_bounds, cleared, found-eq-some,
}

-- The generation of slot `x` survives, and the table does not shrink.
abbrev Ages : ObjectTable → ObjectTable → ℕ → Type 0
Ages t u x = (t.capacity ≤ u.capacity) × ((u.slots x).generation ≡ (t.slots x).generation)

take_slot-Ages :
    (calloc_ok : Bool) (t : ObjectTable) (kind size x : ℕ)
    → Ages t (take_slot calloc_ok t kind size).1 x
unfolding take_slot
take_slot-Ages true t kind size x = (omega arith, ground arith)
take_slot-Ages false t kind size x = (omega arith, (push_same (pop_free t) t.free_head x).1)

grow_table-Ages :
    (realloc_ok : Bool) (t : ObjectTable) (x : ℕ)
    → x < t.capacity
    → Ages t (grow_table realloc_ok t).1 x
unfolding grow_table
grow_table-Ages realloc_ok t x h =
    let n = grown_capacity t.capacity in
    ground (arith, fresh_slots_lem (n - t.capacity) t.capacity n t.slots x)

after_growth-Ages :
    (calloc_ok : Bool) (t : ObjectTable) (kind size x : ℕ) (g : Bool × ObjectTable)
    → Ages t g.1 x
    → Ages t (after_growth calloc_ok kind size g).1 x
unfolding after_growth
after_growth-Ages calloc_ok t kind size x (false, u) a = a
after_growth-Ages calloc_ok t kind size x (true, u) a =
    let b = take_slot-Ages calloc_ok u kind size x in (omega arith, b.1 ∙ a.1)

allocate-Ages :
    (realloc_ok calloc_ok : Bool) (t : ObjectTable) (kind size x : ℕ)
    → x < t.capacity
    → Ages t (allocate realloc_ok calloc_ok t kind size).1 x
unfolding allocate
allocate-Ages realloc_ok calloc_ok t kind size x h = ground (
  arith,
  take_slot-Ages calloc_ok t kind size x,
  after_growth-Ages calloc_ok t kind size x (grow_table realloc_ok t)
      (grow_table-Ages realloc_ok t x h),
)

-- The calls of a client, with what the allocator answers.
pub data Call : Type 0 where
  allocation : Bool → Bool → ℕ → ℕ → Call
  removal : ℕ → Call

unfoldable pub run : ObjectTable → List Call → ObjectTable
run t [] = t
run t (allocation realloc_ok calloc_ok kind size ∷ calls) =
    run (allocate realloc_ok calloc_ok t kind size).1 calls
run t (removal id ∷ calls) = run (remove t id).1 calls

-- How many of the calls remove an object from slot `x`.
unfoldable pub removals : ℕ → ObjectTable → List Call → ℕ
removals x t [] = 0
removals x t (allocation realloc_ok calloc_ok kind size ∷ calls) =
    removals x (allocate realloc_ok calloc_ok t kind size).1 calls
removals x t (removal id ∷ calls) =
    let rest = removals x (remove t id).1 calls in
    if not (is_null (found t id)) && id % 2 ^ 15 == x then suc rest else rest

-- The generation after `k` removals.
abbrev later_generation : ℕ → ℕ → ℕ
later_generation g k = (g - 1 + k) % 65535 + 1

remove-generation :
    (t : ObjectTable) (id x : ℕ)
    → ((remove t id).1.capacity ≡ t.capacity)
      × (((remove t id).1.slots x).generation ≡ (
          if not (is_null (found t id)) && id % 2 ^ 15 == x
          then next_generation (t.slots x).generation
          else (t.slots x).generation))
unfolding remove_from
remove-generation t id x = rw (remove-found t id) (by_object (found t id))
  where
    by_object :
        (f : Option Object)
        → let r = remove_from t (id % 2 ^ 15) f in
          (r.1.capacity ≡ t.capacity)
          × ((r.1.slots x).generation ≡ (
              if not (is_null f) && id % 2 ^ 15 == x
              then next_generation (t.slots x).generation
              else (t.slots x).generation))
    by_object none = (refl, refl)
    by_object (some o) =
        (refl, (push_same (cleared t (id % 2 ^ 15)) (id % 2 ^ 15) x).1 ∙ ground arith)

later_generation_next :
    (g k : ℕ)
    → 0 < g
    → g < 2 ^ 16
    → later_generation (next_generation g) k ≡ later_generation g (suc k)
later_generation_next g k lo hi = ground arith

run-generation :
    (calls : List Call) (t : ObjectTable) (x g : ℕ)
    → IsValid t
    → x < t.capacity
    → (t.slots x).generation ≡ g
    → 0 < g
    → g < 2 ^ 16
    → (x < (run t calls).capacity)
      × (((run t calls).slots x).generation ≡ later_generation g (removals x t calls))
unfolding run removals
run-generation [] t x g v h e lo hi = (h, e ∙ omega arith)
run-generation (allocation realloc_ok calloc_ok kind size ∷ calls) t x g v h e lo hi =
    let a = allocate-Ages realloc_ok calloc_ok t kind size x h in
    run-generation calls (allocate realloc_ok calloc_ok t kind size).1 x g
      (allocate-Allocated realloc_ok calloc_ok t kind size v).valid (omega (arith, a.0)) (a.1 ∙ e)
      lo hi
run-generation (removal id ∷ calls) t x g v h e lo hi =
    let r = remove-generation t id x in
    let w = remove-IsValid t id v in
    elim (Bool-cases (not (is_null (found t id)) && id % 2 ^ 15 == x)) [
      | inl hit ↦
          let next = next_generation_bounds g hi in
          let rest =
            run-generation calls (remove t id).1 x (next_generation g) w (omega (arith, r.0))
              (ground (arith, r.1)) next.0 next.1 in
          rw hit (rest.0, rest.1 ∙ later_generation_next g _ lo hi)
      | inr miss ↦ rw miss (
          run-generation calls (remove t id).1 x g w (omega (arith, r.0)) (ground (arith, r.1)) lo
            hi)
    ]

-- The generations of a slot come round only after 65535 removals.
never_again :
    (g k : ℕ) → 0 < g → g < 2 ^ 16 → k < 65534 → later_generation (next_generation g) k ≢ g
never_again g k lo hi few e = ground arith

found-eq-none :
    (t : ObjectTable) (id : ℕ)
    → (t.slots (id % 2 ^ 15)).generation ≢ id / 2 ^ 15 % 2 ^ 16
    → found t id ≡ none
unfolding found
found-eq-none t id n = ground arith

-- An id that nvdObjectTableRemove took out stands for nothing after any further calls, as long as they
-- remove fewer than 65534 objects from its slot.
pub found-run :
    (t : ObjectTable) (id : ℕ) (o : Object) (calls : List Call)
    → IsValid t
    → found t id ≡ some o
    → removals (id % 2 ^ 15) (remove t id).1 calls < 65534
    → found (run (remove t id).1 calls) id ≡ none
found-run t id o calls (q, v) e few =
    let x = id % 2 ^ 15 in
    let (h, object, generation) = found-eq-some t id o e in
    let (lo, hi) = v.generations x h in
    let g = (t.slots x).generation in
    let r = remove-generation t id x in
    let hit : (not (is_null (found t id)) && id % 2 ^ 15 == x) ≡ true = rw e (ground arith) in
    let changed : ((remove t id).1.slots x).generation ≡ next_generation g = ground (arith, r.1) in
    let next = next_generation_bounds g hi in
    let last =
      run-generation calls (remove t id).1 x (next_generation g) (remove-IsValid t id (q, v))
        (omega (arith, r.0)) changed next.0 next.1 in
    found-eq-none (run (remove t id).1 calls) id (λ same.
      never_again g (removals x (remove t id).1 calls) lo hi few
        (sym last.1 ∙ same ∙ sym generation))
