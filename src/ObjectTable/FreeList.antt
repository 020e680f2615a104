-- ===== src/ObjectTable/FreeList.antt =====
-- src/object-table.c: the list of free slots that runs through `nextFree`, as a queue of indices.
use nvidia_vaapi_driver.Prelude.{
  ℕ, zero, suc, ◌+◌, ◌-◌, ◌≤◌, ◌<◌, ◌≡◌, ◌≢◌, refl, none, List, [], ◌∷◌, ◌++◌, Bool, true, false,
  ◌||◌, ◌&&◌, ltb, leb, ◌==◌, if◌then◌else◌, length, add32, arith,
}
use nvidia_vaapi_driver.ObjectTable.{Slot, slot_none, max_capacity, write, fresh_slots}

unfoldable pub contains : ℕ → List ℕ → Bool
contains i [] = false
contains i (j ∷ q) = i == j || contains i q

abbrev pub last_or : ℕ → List ℕ → ℕ
last_or d [] = d
last_or d (i ∷ q) = last_or i q

abbrev pub Distinct : List ℕ → Type 0
Distinct [] = Unit
Distinct (i ∷ q) = (contains i q ≡ false) × Distinct q

-- From `head` on, `nextFree` runs through exactly the indices of `q`.
abbrev pub Links : (ℕ → Slot) → ℕ → List ℕ → Type 0
Links slots head [] = head ≡ slot_none
Links slots head (i ∷ q) = (head ≡ i) × (i ≢ slot_none) × Links slots (slots i).next_free q

pub Links-congr :
    (f g : ℕ → Slot) (head : ℕ) (q : List ℕ)
    → ((i : ℕ) → contains i q ≡ true → (f i).next_free ≡ (g i).next_free)
    → Links f head q
    → Links g head q
unfolding contains
Links-congr f g head [] same l = l
Links-congr f g head (i ∷ q) same (e, ne, l) =
    let here : (f i).next_free ≡ (g i).next_free = same i (ground arith) in
    (e, ne, Links-congr f g (g i).next_free q (λ j h. same j (ground arith)) (rw here at l))

pub contains-last : (i : ℕ) (q : List ℕ) → contains (last_or i q) (i ∷ q) ≡ true
unfolding contains
contains-last i [] = ground arith
contains-last i (j ∷ q) = ground (arith, contains-last j q)

pub contains-append : (i j : ℕ) (q : List ℕ) → contains i (q ++ j ∷ []) ≡ (contains i q || i == j)
unfolding contains
contains-append i j [] = ground arith
contains-append i j (k ∷ q) = ground (arith, contains-append i j q)

pub Distinct-append :
    (j : ℕ) (q : List ℕ) → contains j q ≡ false → Distinct q → Distinct (q ++ j ∷ [])
unfolding contains
Distinct-append j [] h d = (refl, tt)
Distinct-append j (k ∷ q) h (n, d) =
    (ground (arith, contains-append k j q), Distinct-append j q (ground arith) d)

pub last_or-append : (d j : ℕ) (q : List ℕ) → last_or d (q ++ j ∷ []) ≡ j
last_or-append d j [] = refl
last_or-append d j (k ∷ q) = last_or-append k j q

-- Writing the last link of a non-empty queue appends an index.
pub Links-append :
    (f g : ℕ → Slot) (head i x : ℕ) (q : List ℕ)
    → Distinct (i ∷ q)
    → contains x (i ∷ q) ≡ false
    → x ≢ slot_none
    → ((j : ℕ)
        → (g j).next_free
          ≡ (if last_or i q == j then x else if x == j then slot_none else (f j).next_free))
    → Links f head (i ∷ q)
    → Links g head (i ∷ q ++ x ∷ [])
unfolding contains
Links-append f g head i x [] d n ne step (e, ni, l) =
    (e, ni, (ground (arith, step i), ne, ground (arith, step x)))
Links-append f g head i x (k ∷ q) (d, d') n ne step (e, ni, (l, nk, l')) =
    let same : (g i).next_free ≡ (f i).next_free =
      ground (arith, step i, contains-last k q, contains_of_eq i (last_or k q) (k ∷ q)) in
    (e, ni, rw same (Links-append f g (f i).next_free k x q d' (ground arith) ne step (l, nk, l')))
  where
    contains_of_eq : (a b : ℕ) (r : List ℕ) → b ≡ a → contains b r ≡ contains a r
    contains_of_eq a b r p = rw p

-- A queue of `n` indices from `i` on.
abbrev pub range : ℕ → ℕ → List ℕ
range i zero = []
range i (suc n) = i ∷ range (i + 1) n

pub contains-range : (j i n : ℕ) → contains j (range i n) ≡ (leb i j && ltb j (i + n))
unfolding contains
contains-range j i zero = ground arith
contains-range j i (suc n) = ground (arith, contains-range j (i + 1) n)

pub Distinct-range : (i n : ℕ) → Distinct (range i n)
Distinct-range i zero = tt
Distinct-range i (suc n) = (ground (arith, contains-range i (i + 1) n), Distinct-range (i + 1) n)

pub length-range : (i n : ℕ) → length (range i n) ≡ n
length-range i zero = refl
length-range i (suc n) = omega (arith, length-range (i + 1) n)

pub last_or-range : (d i n : ℕ) → 0 < n → last_or d (range i n) ≡ i + n - 1
last_or-range d i zero h = absurd (omega arith)
last_or-range d i (suc zero) h = omega arith
last_or-range d i (suc (suc n)) h = omega (arith, last_or-range i (i + 1) (suc n) (omega arith))

-- What growTable leaves in the slots.
abbrev pub fresh_slot : ℕ → ℕ → Slot
fresh_slot new_capacity i = record {
  object = none;
  next_free = if ltb (add32 i 1) new_capacity then add32 i 1 else slot_none;
  generation = 1;
}

pub fresh_slots_lem :
    (rounds i new_capacity : ℕ) (slots : ℕ → Slot) (j : ℕ)
    → fresh_slots rounds i new_capacity slots j
      ≡ (if leb i j && ltb j (i + rounds) then fresh_slot new_capacity j else slots j)
unfolding fresh_slots
fresh_slots_lem zero i new_capacity slots j = ground arith
fresh_slots_lem (suc rounds) i new_capacity slots j = ground (
  arith,
  fresh_slots_lem rounds (i + 1) new_capacity (write slots i (fresh_slot new_capacity i)) j,
)

pub Links-fresh :
    (slots : ℕ → Slot) (i n new_capacity : ℕ)
    → i + suc n ≡ new_capacity
    → new_capacity ≤ max_capacity
    → ((j : ℕ) → i ≤ j → j < new_capacity → slots j ≡ fresh_slot new_capacity j)
    → Links slots i (range i (suc n))
Links-fresh slots i zero c e m h = (refl, omega arith, ground (arith, h i))
Links-fresh slots i (suc n) c e m h =
    let next : (slots i).next_free ≡ i + 1 = ground (arith, h i) in
    (
      refl,
      omega arith,
      rw next (Links-fresh slots (i + 1) n c (omega arith) m (λ j a b. h j (omega arith) b)),
    )
