-- ===== src/ObjectTable/Invariant.antt =====
-- src/object-table.c: what holds of the table between calls, and that every operation keeps it.
use nvidia_vaapi_driver.Prelude.{
  ℕ, suc, ◌+◌, ◌-◌, ◌^◌, ◌≤◌, ◌<◌, ◌≡◌, refl, sym, ◌∙◌, some, List, [], ◌∷◌, Bool, true, false, not,
  ◌||◌, ◌⊎◌, leb, length, arith, Bool-cases, inl, inr,
}
use mathlib.Core.Path.{subst}
use nvidia_vaapi_driver.AppendableBuffer.{is_null}
use nvidia_vaapi_driver.ObjectTable.{
  Object, ObjectTable, slot_none, max_capacity, grown_capacity, make_id, init, fresh_slots,
  grow_table,
}
use nvidia_vaapi_driver.ObjectTable.FreeList.{
  contains, last_or, Distinct, Links, range, contains-range, Distinct-range, length-range,
  last_or-range, fresh_slots_lem, Links-fresh,
}

-- `q` is the queue of free slots, the next to be used first.
pub record Models (t : ObjectTable) (q : List ℕ) : Type 0 where
  pub bounded : t.capacity ≤ max_capacity
  pub links : Links t.slots t.free_head q
  pub tail : t.free_tail ≡ last_or slot_none q
  pub inside : (i : ℕ) → contains i q ≡ true → i < t.capacity
  pub distinct : Distinct q
  pub vacant : (i : ℕ) → i < t.capacity → contains i q ≡ is_null (t.slots i).object
  pub labelled :
      (i : ℕ) (o : Object)
      → i < t.capacity
      → (t.slots i).object ≡ some o
      → (o.id ≡ make_id (t.slots i).generation i) × (o.kind < 7)
  pub generations :
      (i : ℕ) → i < t.capacity → (0 < (t.slots i).generation) × ((t.slots i).generation < 2 ^ 16)
  pub counted : t.live_count + length q ≡ t.capacity

abbrev pub IsValid : ObjectTable → Type 0
IsValid t = (q : List ℕ) × Models t q

-- nvdObjectTableInit
pub init-Models : Models init []
unfolding init contains
init-Models = record {
  bounded = omega arith;
  links = refl;
  tail = refl;
  inside = λ i h. cc;
  distinct = tt;
  vacant = λ i h. elim h [ ];
  labelled = λ i o h e. elim h [ ];
  generations = λ i h. elim h [ ];
  counted = refl;
}

-- A table with nothing free.
tail_of_empty : {t : ObjectTable} → Models t [] → t.free_tail ≡ slot_none
tail_of_empty v = v.tail

pub head_of_empty : {t : ObjectTable} (q : List ℕ) → Models t q → t.free_head ≡ slot_none → q ≡ []
head_of_empty [] v e = refl
head_of_empty (i ∷ q) v e = absurd (v.links.1 (sym v.links.0 ∙ e))

grown_capacity_bounds :
    (c : ℕ) → c < max_capacity → (c < grown_capacity c) × (grown_capacity c ≤ max_capacity)
grown_capacity_bounds c h = ground arith

-- `c` is the old capacity and `n` that of the grown table.
grown-Models :
    (t : ObjectTable) (n : ℕ)
    → Models t []
    → t.capacity < n
    → n ≤ max_capacity
    → Models
        (record t {
          slots = fresh_slots (n - t.capacity) t.capacity n t.slots;
          free_head = t.capacity;
          free_tail = n - 1;
          capacity = n;
        })
        (range t.capacity (n - t.capacity))
unfolding contains
grown-Models t n v lo hi =
    let c = t.capacity in
    let slots = fresh_slots (n - c) c n t.slots in
    let at = λ (j : ℕ). fresh_slots_lem (n - c) c n t.slots j in
    let more : n - c ≡ suc (n - c - 1) = omega arith in
    record {
      bounded = hi;
      links =
          subst (λ k. Links slots c (range c k)) (sym more)
            (Links-fresh slots c (n - c - 1) n (omega arith) hi (λ j a b. ground (arith, at j)));
      tail = omega (arith, last_or-range slot_none c (n - c) (omega arith));
      inside = λ i h. ground (arith, contains-range i c (n - c));
      distinct = Distinct-range c (n - c);
      vacant = λ i h. ground (arith, contains-range i c (n - c), at i, v.vacant i);
      labelled = λ i o h e. ground (arith, at i, v.labelled i o);
      generations = λ i h. ground (arith, at i, v.generations i);
      counted = omega (arith, length-range c (n - c), v.counted);
    }

-- growTable, called with nothing free: it fails and changes nothing, or all the new slots are free.
pub grow_table-Models :
    (realloc_ok : Bool) (t : ObjectTable)
    → Models t []
    → let r = grow_table realloc_ok t in
      (r ≡ (false, t))
      ⊎ (r.0 ≡ true)
        × (t.capacity < r.1.capacity)
        × Models r.1 (range t.capacity (r.1.capacity - t.capacity))
unfolding grow_table
grow_table-Models realloc_ok t v =
    elim (Bool-cases (leb max_capacity t.capacity || not realloc_ok)) [
      | inl full ↦ inl (rw full)
      | inr room ↦
          let (lo, hi) = grown_capacity_bounds t.capacity (ground arith) in
          inr (rw (room, v.tail) (refl, lo, grown-Models t (grown_capacity t.capacity) v lo hi))
    ]
