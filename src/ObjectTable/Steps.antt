-- ===== src/ObjectTable/Steps.antt =====
-- src/object-table.c: the ends of the free list: a slot taken off it, and put back.
use native.Mathlib.Decide.{ℕ_discrete}
use nvidia_vaapi_driver.Prelude.{
  ℕ, ◌+◌, ◌^◌, ◌≤◌, ◌<◌, ◌≡◌, ◌≢◌, refl, sym, ◌∙◌, none, some, List, [], ◌∷◌, ◌++◌, Bool, true,
  false, ◌==◌, if◌then◌else◌, length, length-append, arith,
}
use mathlib.Core.Path.{subst}
use nvidia_vaapi_driver.AppendableBuffer.{is_null}
use nvidia_vaapi_driver.ObjectTable.{
  Object, Slot, ObjectTable, slot_none, max_capacity, make_id, push_free, pop_free,
}
use nvidia_vaapi_driver.ObjectTable.FreeList.{
  contains, last_or, Distinct, Links, contains-last, contains-append, Distinct-append,
  last_or-append, Links-append,
}
use nvidia_vaapi_driver.ObjectTable.{set_next}
use nvidia_vaapi_driver.ObjectTable.Invariant.{Models}

-- Slot `x` is in use by the operation: neither free nor counted as live.
pub record Loose (t : ObjectTable) (x : ℕ) (q : List ℕ) : Type 0 where
  pub bounded : t.capacity ≤ max_capacity
  pub links : Links t.slots t.free_head q
  pub tail : t.free_tail ≡ last_or slot_none q
  pub inside : (i : ℕ) → contains i q ≡ true → i < t.capacity
  pub distinct : Distinct q
  pub held : x < t.capacity
  pub outside : contains x q ≡ false
  pub vacant : (i : ℕ) → i < t.capacity → i ≢ x → contains i q ≡ is_null (t.slots i).object
  pub labelled :
      (i : ℕ) (o : Object)
      → i < t.capacity
      → i ≢ x
      → (t.slots i).object ≡ some o
      → (o.id ≡ make_id (t.slots i).generation i) × (o.kind < 7)
  pub generations :
      (i : ℕ) → i < t.capacity → (0 < (t.slots i).generation) × ((t.slots i).generation < 2 ^ 16)
  pub counted : t.live_count + length q + 1 ≡ t.capacity

pop_tail :
    (next tail x : ℕ) (q : List ℕ) (slots : ℕ → Slot)
    → Links slots next q
    → tail ≡ last_or x q
    → (if next == slot_none then slot_none else tail) ≡ last_or slot_none q
pop_tail next tail x [] slots l e = ground arith
pop_tail next tail x (i ∷ q) slots l e = ground arith

-- Taking the head of the free list.
pub pop_free-Loose :
    {t : ObjectTable} (x : ℕ) (q : List ℕ)
    → Models t (x ∷ q)
    → (t.free_head ≡ x) × Loose (pop_free t) x q
unfolding contains
pop_free-Loose {t} x q v =
    let (e, ne, l) = v.links in
    let l' : Links t.slots (t.slots t.free_head).next_free q = rw e l in
    (
      e,
      record {
        bounded = v.bounded;
        links = l';
        tail = pop_tail (t.slots t.free_head).next_free t.free_tail x q t.slots l' v.tail;
        inside = λ i h. v.inside i (ground arith);
        distinct = v.distinct.1;
        held = v.inside x (ground arith);
        outside = v.distinct.0;
        vacant = λ i h n. ground (arith, v.vacant i);
        labelled = λ i o h n p. v.labelled i o h p;
        generations = v.generations;
        counted = omega (arith, v.counted);
      },
    )

push-Links :
    (slots : ℕ → Slot) (head tail x capacity : ℕ) (q : List ℕ)
    → Links slots head q
    → tail ≡ last_or slot_none q
    → Distinct q
    → contains x q ≡ false
    → ((i : ℕ) → contains i q ≡ true → i < capacity)
    → x < capacity
    → capacity ≤ max_capacity
    → let t' =
        push_free
          (record {
            slots = slots;
            capacity = capacity;
            free_head = head;
            free_tail = tail;
            live_count = 0;
          })
          x in
      Links t'.slots t'.free_head (q ++ x ∷ [])
unfolding contains
push-Links slots head tail x capacity [] l e d n inside h b = rw e (refl, omega arith, ground arith)
push-Links slots head tail x capacity (i ∷ q) l e d n inside h b =
    let last = last_or i q in
    let lo : last < capacity = inside last (contains-last i q) in
    let full : (tail == slot_none) ≡ false = ground arith in
    let marked = set_next slots x slot_none in
    let linked = set_next marked tail x in
    subst
      (λ (b : Bool). Links (if b then marked else linked) (if b then x else head) (i ∷ q ++ x ∷ []))
      (sym full) (Links-append slots linked head i x q d n (omega arith) (λ j. ground arith) l)

pub push_same :
    (t : ObjectTable) (x i : ℕ)
    → (((push_free t x).slots i).object ≡ (t.slots i).object)
      × (((push_free t x).slots i).generation ≡ (t.slots i).generation)
push_same t x i = (ground arith, ground arith)

-- Appending the slot in use to the free list, its object gone.
pub push_free-Models :
    {t : ObjectTable} (x : ℕ) (q : List ℕ)
    → Loose t x q
    → (t.slots x).object ≡ none
    → Models (push_free t x) (q ++ x ∷ [])
unfolding contains
push_free-Models {t} x q v gone = record {
  bounded = v.bounded;
  links =
      push-Links t.slots t.free_head t.free_tail x t.capacity q v.links v.tail v.distinct v.outside
        v.inside v.held v.bounded;
  tail = sym (last_or-append slot_none x q);
  inside = λ i h. ground (arith, contains-append i x q, v.inside i, v.held);
  distinct = Distinct-append x q v.outside v.distinct;
  vacant = λ i h. rw (push_same t x i).0 (vacant_push i h);
  labelled = λ i o h e. labelled_push i o h (sym (push_same t x i).0 ∙ e);
  generations = λ i h. rw (push_same t x i).1 (v.generations i h);
  counted = omega (arith, length-append q (x ∷ []), v.counted);
}
  where
    vacant_push : (i : ℕ) → i < t.capacity → contains i (q ++ x ∷ []) ≡ is_null (t.slots i).object
    vacant_push i h = elim (ℕ_discrete i x) [
      | yes e ↦ rw e (ground (arith, contains-append x x q))
      | no n ↦ ground (arith, contains-append i x q, v.vacant i)
    ]

    labelled_push :
        (i : ℕ) (o : Object)
        → i < t.capacity
        → (t.slots i).object ≡ some o
        → (o.id ≡ make_id ((push_free t x).slots i).generation i) × (o.kind < 7)
    labelled_push i o h e = rw (push_same t x i).1 (v.labelled i o h (λ n. cc) e)
