-- ===== src/ObjectTable/Allocate.antt =====
-- src/object-table.c: nvdObjectTableAllocate.
use mathlib.Core.Path.{subst}
use nvidia_vaapi_driver.Prelude.{
  ℕ, suc, ◌+◌, ◌-◌, ◌*◌, ◌%◌, ◌^◌, ◌≤◌, ◌<◌, ◌≡◌, refl, sym, ap, ◌∙◌, Option, none, some, List, [],
  ◌∷◌, ◌++◌, Bool, true, false, ◌||◌, ◌⊎◌, ltb, leb, ◌==◌, if◌then◌else◌, add32, arith, Bool-cases,
  inl, inr, size_max,
}
use nvidia_vaapi_driver.ObjectTable.{
  Object, ObjectTable, slot_none, max_capacity, make_id, write, grow_table, pop_free,
  grown_capacity, take_slot, allocate, after_growth, object_header_size,
}
use nvidia_vaapi_driver.ObjectTable.FreeList.{contains, range, Links-congr, fresh_slots_lem}
use nvidia_vaapi_driver.ObjectTable.Ids.{make_id_sum, id_parts}
use nvidia_vaapi_driver.ObjectTable.Invariant.{Models, IsValid, grow_table-Models}
use nvidia_vaapi_driver.ObjectTable.Steps.{Loose, pop_free-Loose, push_free-Models, push_same}
use nvidia_vaapi_driver.ObjectTable.Lookup.{found, found_congr}

-- The slot in use gets a new object.
abbrev fill : ObjectTable → ℕ → Object → ObjectTable
fill t x o = record t {
  slots = write t.slots x (record (t.slots x) { object = some o; next_free = slot_none });
  live_count = add32 t.live_count 1;
}

fill-Models :
    {t : ObjectTable} (x : ℕ) (q : List ℕ) (o : Object)
    → Loose t x q
    → o.id ≡ make_id (t.slots x).generation x
    → o.kind < 7
    → Models (fill t x o) q
fill-Models {t} x q o v label kind = record {
  bounded = v.bounded;
  links =
      Links-congr t.slots (fill t x o).slots t.free_head q (λ i h. ground (arith, v.outside))
        v.links;
  tail = v.tail;
  inside = v.inside;
  distinct = v.distinct;
  vacant = λ i h. ground (arith, v.vacant i, v.outside);
  labelled = λ i p h e. ground (arith, v.labelled i p);
  generations = λ i h. ground (arith, v.generations i);
  counted = omega (arith, v.counted, v.bounded);
}

-- What a call of nvdObjectTableAllocate did to the ids: nothing, or a new id stands for the object.
pub record Allocated (t : ObjectTable) (kind : ℕ) (r : Option Object × ObjectTable) : Type 0 where
  pub valid : IsValid r.1
  pub refused : r.0 ≡ none → (id : ℕ) → found r.1 id ≡ found t id
  pub fresh : (o : Object) → r.0 ≡ some o → found t o.id ≡ none
  pub kinded : (o : Object) → r.0 ≡ some o → (o.kind ≡ kind) × (2 ^ 15 ≤ o.id) × (o.id < 2 ^ 31)
  pub finds :
      (o : Object) (id : ℕ)
      → r.0 ≡ some o
      → found r.1 id ≡ (if id % 2 ^ 31 == o.id then some o else found t id)

-- A slot with no object is found under no id, and a new object is found under its id alone.
found-fill :
    (t : ObjectTable) (x : ℕ) (o : Object) (id : ℕ)
    → x < t.capacity
    → t.capacity ≤ max_capacity
    → 0 < (t.slots x).generation
    → (t.slots x).generation < 2 ^ 16
    → o.id ≡ make_id (t.slots x).generation x
    → (t.slots x).object ≡ none
    → found (fill t x o) id ≡ (if id % 2 ^ 31 == o.id then some o else found t id)
unfolding found
found-fill t x o id h b p g e vacant = ground (
  arith,
  id_parts id,
  make_id_sum (t.slots x).generation x g (omega arith),
  ap (λ (i : ℕ). (t.slots i).object) {x = x} {y = id % 2 ^ 15},
  ap (λ (i : ℕ). (t.slots i).generation) {x = x} {y = id % 2 ^ 15},
)

found_vacant :
    (t : ObjectTable) (id : ℕ) → (t.slots (id % 2 ^ 15)).object ≡ none → found t id ≡ none
unfolding found
found_vacant t id e = ground arith

id_index : (x g : ℕ) {id : ℕ} → id ≡ g * 2 ^ 15 + x → x < max_capacity → id % 2 ^ 15 ≡ x
id_index x g e h = omega arith

module _ (t : ObjectTable) (q : List ℕ) (v : Models t (t.free_head ∷ q)) where
  loose : Loose (pop_free t) t.free_head q
  loose = (pop_free-Loose t.free_head q v).1

  head_vacant : (t.slots t.free_head).object ≡ none
  unfolding contains
  head_vacant = ground (arith, v.vacant t.free_head loose.held)

  -- A failed calloc puts the slot at the end of the queue.
  take_slot-failed :
      (kind payload_size : ℕ)
      → let r = take_slot false t kind payload_size in
        (r.0 ≡ none) × Models r.1 (q ++ t.free_head ∷ []) × ((id : ℕ) → found r.1 id ≡ found t id)
  unfolding take_slot
  take_slot-failed kind payload_size = (
    refl,
    push_free-Models t.free_head q loose head_vacant,
    λ id. found_congr t _ id refl (push_same (pop_free t) t.free_head),
  )

  take_slot-taken :
      (kind payload_size : ℕ)
      → kind < 7
      → let r = take_slot true t kind payload_size in Models r.1 q × Allocated t kind r
  unfolding take_slot
  take_slot-taken kind payload_size k =
      let x = t.free_head in
      let g = v.generations x loose.held in
      let small : x < max_capacity = omega (arith, loose.held, v.bounded) in
      let sum = make_id_sum (t.slots x).generation x g.1 small in
      let o : Object = record {
        id = make_id (t.slots x).generation x;
        kind = kind;
        obj = if payload_size == 0 then none else some payload_size;
      } in
      let models = fill-Models x q o loose refl k in
      (
        models,
        record {
          valid = (q, models);
          refused = λ e. cc;
          fresh = λ p e.
              let same : p ≡ o = cc in
              rw same (
                found_vacant t o.id (rw (id_index x (t.slots x).generation sum small) head_vacant));
          kinded = λ p e. let same : p ≡ o = cc in rw same (refl, omega arith, omega arith);
          finds = λ p id e.
              let same : p ≡ o = cc in
              let before = found_congr t (pop_free t) id refl (λ i. (refl, refl)) in
              rw (same, ← before)
                (found-fill (pop_free t) x o id loose.held loose.bounded g.0 g.1 refl head_vacant);
        },
      )

unchanged-Allocated :
    (t u : ObjectTable) (kind : ℕ)
    → IsValid u
    → ((id : ℕ) → found u id ≡ found t id)
    → Allocated t kind (none, u)
unchanged-Allocated t u kind v same = record {
  valid = v;
  refused = λ e. same;
  fresh = λ o e. cc;
  kinded = λ o e. cc;
  finds = λ o id e. cc;
}

Allocated-trans :
    (t u : ObjectTable) (kind : ℕ) (r : Option Object × ObjectTable)
    → ((id : ℕ) → found u id ≡ found t id)
    → Allocated u kind r
    → Allocated t kind r
Allocated-trans t u kind r same a = record {
  valid = a.valid;
  refused = λ e id. a.refused e id ∙ same id;
  fresh = λ o e. sym (same o.id) ∙ a.fresh o e;
  kinded = a.kinded;
  finds = λ o id e. rw (← same id) (a.finds o id e);
}

-- From a table with a free slot.
take_slot-Allocated :
    (calloc_ok : Bool) (t : ObjectTable) (kind payload_size x : ℕ) (q : List ℕ)
    → kind < 7
    → Models t (x ∷ q)
    → Allocated t kind (take_slot calloc_ok t kind payload_size)
take_slot-Allocated calloc_ok t kind payload_size x q k v =
    by_calloc calloc_ok (subst (λ i. Models t (i ∷ q)) (sym v.links.0) v)
  where
    by_calloc :
        (calloc_ok : Bool)
        → Models t (t.free_head ∷ q)
        → Allocated t kind (take_slot calloc_ok t kind payload_size)
    by_calloc true w = (take_slot-taken t q w kind payload_size k).1
    by_calloc false w =
        let (none_back, models, same) = take_slot-failed t q w kind payload_size in
        let r = take_slot false t kind payload_size in
        subst (λ (o : Option Object). Allocated t kind (o, r.1)) (sym none_back)
          (unchanged-Allocated t r.1 kind (_, models) same)

found-grow_table :
    (realloc_ok : Bool) (t : ObjectTable) (id : ℕ)
    → Models t []
    → found (grow_table realloc_ok t).1 id ≡ found t id
unfolding grow_table found
found-grow_table realloc_ok t id v =
    let n = grown_capacity t.capacity in
    ground (arith, v.tail, fresh_slots_lem (n - t.capacity) t.capacity n t.slots (id % 2 ^ 15))

after_growth-Allocated :
    (calloc_ok : Bool) (t : ObjectTable) (kind payload_size : ℕ) (g : Bool × ObjectTable)
    → kind < 7
    → ((id : ℕ) → found g.1 id ≡ found t id)
    → (g ≡ (false, t))
      ⊎ (g.0 ≡ true)
        × (t.capacity < g.1.capacity)
        × Models g.1 (range t.capacity (g.1.capacity - t.capacity))
    → IsValid t
    → Allocated t kind (after_growth calloc_ok kind payload_size g)
unfolding after_growth
after_growth-Allocated calloc_ok t kind payload_size (false, u) k same (inl e) v =
    let u-eq : u ≡ t = ap (λ (p : Bool × ObjectTable). p.1) e in
    rw u-eq (unchanged-Allocated t t kind v (λ id. refl))
after_growth-Allocated calloc_ok t kind payload_size (false, u) k same (inr (e, lt, m)) v = cc
after_growth-Allocated calloc_ok t kind payload_size (true, u) k same (inl e) v =
    let wrong : true ≡ false = ap (λ (p : Bool × ObjectTable). p.0) e in cc
after_growth-Allocated calloc_ok t kind payload_size (true, u) k same (inr (e, lt, m)) v =
    let more : u.capacity - t.capacity ≡ suc (u.capacity - t.capacity - 1) = omega arith in
    Allocated-trans t u kind _ same (
      take_slot-Allocated calloc_ok u kind payload_size t.capacity
        (range (t.capacity + 1) (u.capacity - t.capacity - 1)) k
        (subst (λ n. Models u (range t.capacity n)) more m))

-- nvdObjectTableAllocate on a valid table: the id that it hands out was in no use and is neither 0
-- nor VA_INVALID_ID. From then on exactly the ids that agree with it in the low 31 bits stand for the
-- new object (bit 31 is not looked at), and every other id stands for what it did. A failure of
-- realloc or calloc, a bad type or a full table changes no id. The table stays valid.
pub allocate-Allocated :
    (realloc_ok calloc_ok : Bool) (t : ObjectTable) (kind payload_size : ℕ)
    → IsValid t
    → Allocated t kind (allocate realloc_ok calloc_ok t kind payload_size)
unfolding allocate
allocate-Allocated realloc_ok calloc_ok t kind payload_size (q, v) =
    elim (Bool-cases (leb 7 kind || ltb (size_max - object_header_size) payload_size)) [
      | inl bad ↦ rw bad (unchanged-Allocated t t kind (q, v) (λ id. refl))
      | inr good ↦ rw good (by_head q v (ground arith))
    ]
  where
    by_head :
        (q : List ℕ)
        → Models t q
        → kind < 7
        → Allocated t kind (
            if t.free_head == slot_none
            then after_growth calloc_ok kind payload_size (grow_table realloc_ok t)
            else take_slot calloc_ok t kind payload_size)
    by_head [] v k =
        let e : (t.free_head == slot_none) ≡ true = ground (arith, v.links) in
        rw e (
          after_growth-Allocated calloc_ok t kind payload_size (grow_table realloc_ok t) k
            (λ id. found-grow_table realloc_ok t id v) (grow_table-Models realloc_ok t v) ([], v))
    by_head (x ∷ r) v k =
        let e : (t.free_head == slot_none) ≡ false = ground (arith, v.links) in
        rw e (take_slot-Allocated calloc_ok t kind payload_size x r k v)
