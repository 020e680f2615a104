-- ===== src/Prelude/Sums.antt =====
-- Sums over the numbers below a bound, and how often a number occurs in a list.
use Prim.Native.Nat.{ℕ, zero, suc, ◌+◌, ◌<◌}
use mathlib.Core.Path.{◌≡◌, refl}
use mathlib.Core.Logic.{◌≢◌}
use mathlib.Core.List.{List, [], ◌∷◌}
use native.Mathlib.Omega.{arith}
use nvidia_vaapi_driver.Prelude.Tests.{◌==◌, if◌then◌else◌}
use native.Mathlib.Numerals.{add-one}
use native.Mathlib.Decide.{ℕ_discrete}

-- f 0 + … + f (n - 1)
unfoldable pub sum_below : ℕ → (ℕ → ℕ) → ℕ
sum_below zero f = 0
sum_below (suc n) f = f n + sum_below n f

pub sum_next : (n : ℕ) (f : ℕ → ℕ) → sum_below (n + 1) f ≡ f n + sum_below n f
unfolding sum_below
sum_next n f = rw add-one

pub sum_congr :
    (n : ℕ) (f g : ℕ → ℕ) → ((j : ℕ) → j < n → f j ≡ g j) → sum_below n f ≡ sum_below n g
unfolding sum_below
sum_congr zero f g h = refl
sum_congr (suc n) f g h =
    omega (arith, h n (omega arith), sum_congr n f g (λ j k. h j (omega arith)))

-- Two sums that differ in one term.
pub sum_change :
    (n i : ℕ) (f g : ℕ → ℕ)
    → i < n
    → ((j : ℕ) → j ≢ i → g j ≡ f j)
    → sum_below n g + f i ≡ sum_below n f + g i
unfolding sum_below
sum_change zero i f g h same = absurd (omega arith)
sum_change (suc n) i f g h same = elim (ℕ_discrete i n) [
  | yes e ↦
      let rest = sum_congr n g f (λ j k. same j (λ q. absurd (omega arith))) in
      ground (arith, e, rest)
  | no ne ↦
      let here = same n (λ q. ne (omega arith)) in
      let rest = sum_change n i f g (omega arith) same in omega arith
]

abbrev pub count : ℕ → List ℕ → ℕ
count a [] = 0
count a (x ∷ xs) = (if x == a then 1 else 0) + count a xs
