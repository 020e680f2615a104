-- ===== src/ObjectTable/Remove.antt =====
-- src/object-table.c: nvdObjectTableRemove, and ids that were removed.
use nvidia_vaapi_driver.Prelude.{
  ℕ, ◌+◌, ◌-◌, ◌/◌, ◌%◌, ◌^◌, ◌<◌, ◌≡◌, ◌≢◌, refl, sym, ap, ◌∙◌, Option, none, some, List, [], ◌∷◌,
  ◌++◌, false, ◌==◌, if◌then◌else◌, arith, Option-cases, inl, inr,
}
use nvidia_vaapi_driver.ObjectTable.{
  Object, ObjectTable, write, push_free, next_generation, remove, remove_from,
}
use nvidia_vaapi_driver.ObjectTable.FreeList.{contains, Links-congr}
use nvidia_vaapi_driver.ObjectTable.Ids.{id_parts}
use nvidia_vaapi_driver.ObjectTable.Invariant.{Models, IsValid}
use nvidia_vaapi_driver.ObjectTable.Steps.{Loose, push_free-Models, push_same}
use nvidia_vaapi_driver.ObjectTable.Pigeonhole.{length-Distinct-le}
use nvidia_vaapi_driver.ObjectTable.Lookup.{found, found_congr, remove-found}

-- The slot as nvdObjectTableRemove leaves it before it goes on the free list.
abbrev pub cleared : ObjectTable → ℕ → ObjectTable
cleared t x = record t {
  slots =
      write t.slots x
        (record (t.slots x) { object = none; generation = next_generation (t.slots x).generation });
  live_count = (t.live_count + 2 ^ 32 - 1) % 2 ^ 32;
}

pub next_generation_bounds :
    (g : ℕ)
    → g < 2 ^ 16
    → (0 < next_generation g) × (next_generation g < 2 ^ 16) × (0 < g → next_generation g ≢ g)
next_generation_bounds g h = (ground arith, ground arith, λ p e. ground arith)

-- The queue is shorter than the table while something is live.
live_positive :
    (t : ObjectTable) (x : ℕ) (q : List ℕ) (o : Object)
    → Models t q
    → x < t.capacity
    → (t.slots x).object ≡ some o
    → 0 < t.live_count
unfolding contains
live_positive t x q o v h e =
    let out : contains x q ≡ false = ground (arith, v.vacant x h) in
    omega (
      arith,
      v.counted,
      length-Distinct-le t.capacity (x ∷ q) (out, v.distinct) (λ i c. ground (arith, v.inside i)),
    )

cleared-Loose :
    (t : ObjectTable) (x : ℕ) (q : List ℕ) (o : Object)
    → Models t q
    → x < t.capacity
    → (t.slots x).object ≡ some o
    → Loose (cleared t x) x q
cleared-Loose t x q o v h e =
    let out : contains x q ≡ false = ground (arith, v.vacant x h) in
    let live = live_positive t x q o v h e in
    let next = next_generation_bounds (t.slots x).generation (v.generations x h).1 in
    record {
      bounded = v.bounded;
      links = Links-congr t.slots (cleared t x).slots t.free_head q (λ i c. ground arith) v.links;
      tail = v.tail;
      inside = v.inside;
      distinct = v.distinct;
      held = h;
      outside = out;
      vacant = λ i b n. ground (arith, v.vacant i);
      labelled = λ i p b n l. ground (arith, v.labelled i p);
      generations = λ i b. ground (arith, v.generations i, next);
      counted = omega (arith, v.counted, v.bounded);
    }

-- What an id that stands for an object says about its slot.
pub found-eq-some :
    (t : ObjectTable) (id : ℕ) (o : Object)
    → found t id ≡ some o
    → (id % 2 ^ 15 < t.capacity)
      × ((t.slots (id % 2 ^ 15)).object ≡ some o)
      × ((t.slots (id % 2 ^ 15)).generation ≡ id / 2 ^ 15 % 2 ^ 16)
unfolding found
found-eq-some t id o e = (ground arith, ground arith, ground arith)

found-cleared :
    (t : ObjectTable) (id other : ℕ) (o : Object)
    → found t id ≡ some o
    → found (cleared t (id % 2 ^ 15)) other
      ≡ (if other % 2 ^ 31 == id % 2 ^ 31 then none else found t other)
unfolding found
found-cleared t id other o e = ground (
  arith,
  id_parts id,
  id_parts other,
  ap (λ (i : ℕ). (t.slots i).generation) {x = id % 2 ^ 15} {y = other % 2 ^ 15},
)

found_low : (t : ObjectTable) (a b : ℕ) → a % 2 ^ 31 ≡ b % 2 ^ 31 → found t a ≡ found t b
unfolding found
found_low t a b e =
    let g : a / 2 ^ 15 % 2 ^ 16 ≡ b / 2 ^ 15 % 2 ^ 16 = omega arith in
    let i : a % 2 ^ 15 ≡ b % 2 ^ 15 = omega arith in rw (g, i)

-- What a removal answers and leaves behind.
pub record Removed (t : ObjectTable) (q : List ℕ) (id : ℕ) (r : Option Object × ObjectTable)
    : Type 0 where
  pub returns : r.0 ≡ found t id
  pub unknown : found t id ≡ none → r.1 ≡ t
  pub queued : (o : Object) → found t id ≡ some o → Models r.1 (q ++ id % 2 ^ 15 ∷ [])
  pub finds :
      (other : ℕ)
      → found r.1 other ≡ (if other % 2 ^ 31 == id % 2 ^ 31 then none else found t other)

-- nvdObjectTableRemove on a valid table returns the object that the id stands for. Afterwards every
-- id that agrees with it in the low 31 bits (bit 31 is not looked at) stands for nothing, and every
-- other id for what it did; the slot goes to the end of the queue of free slots. An unknown id
-- changes nothing.
pub remove-Removed :
    (t : ObjectTable) (q : List ℕ) (id : ℕ) → Models t q → Removed t q id (remove t id)
unfolding remove_from
remove-Removed t q id v = rw (remove-found t id) (by_object (found t id) refl)
  where
    x : ℕ
    x = id % 2 ^ 15

    by_object : (f : Option Object) → found t id ≡ f → Removed t q id (remove_from t x f)
    by_object none e = record {
      returns = sym e;
      unknown = λ _. refl;
      queued = λ o p. cc;
      finds = λ other. ground (arith, found_low t other id);
    }
    by_object (some o) e =
        let (h, object, generation) = found-eq-some t id o e in
        let loose = cleared-Loose t x q o v h object in
        record {
          returns = sym e;
          unknown = λ p. cc;
          queued = λ _ _. push_free-Models x q loose (ground arith);
          finds = λ other.
              found_congr (cleared t x) (push_free (cleared t x) x) other refl
                (push_same (cleared t x) x)
              ∙ found-cleared t id other o e;
        }

pub remove-IsValid : (t : ObjectTable) (id : ℕ) → IsValid t → IsValid (remove t id).1
remove-IsValid t id (q, v) =
    let r = remove-Removed t q id v in
    elim (Option-cases (found t id)) [
      | inl gone ↦ rw (r.unknown gone) (q, v)
      | inr (o, e) ↦ (q ++ id % 2 ^ 15 ∷ [], r.queued o e)
    ]
