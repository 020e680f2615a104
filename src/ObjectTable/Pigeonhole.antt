-- ===== src/ObjectTable/Pigeonhole.antt =====
-- A queue of different indices below the capacity is no longer than the capacity.
use nvidia_vaapi_driver.Prelude.{
  ℕ, zero, suc, ◌≤◌, ◌<◌, ◌≡◌, refl, List, [], ◌∷◌, true, not, ◌&&◌, ◌==◌, if◌then◌else◌, length,
  arith, Bool-cases, inl, inr,
}
use nvidia_vaapi_driver.ObjectTable.FreeList.{contains, Distinct}

-- The list less the first `x`.
without : ℕ → List ℕ → List ℕ
without x [] = []
without x (y ∷ q) = if x == y then q else y ∷ without x q

contains-without :
    (x i : ℕ) (q : List ℕ) → Distinct q → contains i (without x q) ≡ (contains i q && not (i == x))
unfolding without contains
contains-without x i [] d = refl
contains-without x i (y ∷ q) d = ground (arith, contains-without x i q d.1, contains_eq i y q)
  where
    contains_eq : (i y : ℕ) (q : List ℕ) → i ≡ y → contains i q ≡ contains y q
    contains_eq i y q e = rw e

Distinct-without : (x : ℕ) (q : List ℕ) → Distinct q → Distinct (without x q)
unfolding without
Distinct-without x [] d = tt
Distinct-without x (y ∷ q) d = elim (Bool-cases (x == y)) [
  | inl same ↦ rw same d.1
  | inr other ↦ rw other (ground (arith, contains-without x y q d.1), Distinct-without x q d.1)
]

length-without : (x : ℕ) (q : List ℕ) → length q ≤ suc (length (without x q))
unfolding without
length-without x [] = omega arith
length-without x (y ∷ q) = ground (arith, length-without x q)

pub length-Distinct-le :
    (n : ℕ) (q : List ℕ) → Distinct q → ((i : ℕ) → contains i q ≡ true → i < n) → length q ≤ n
unfolding contains
length-Distinct-le zero [] d h = omega arith
length-Distinct-le zero (x ∷ q) d h = absurd (not_below_zero (h x (ground arith)))
  where
    not_below_zero : {x : ℕ} → x < 0 → ⊥
    not_below_zero p = omega arith
length-Distinct-le (suc n) q d h = omega (
  arith,
  length-without n q,
  length-Distinct-le n (without n q) (Distinct-without n q d)
      (λ i c. ground (arith, contains-without n i q d, h i)),
)
