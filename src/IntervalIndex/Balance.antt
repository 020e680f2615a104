-- ===== src/IntervalIndex/Balance.antt =====
-- src/av1-interval-index.c: the heights of the tree that insertion makes.
use nvidia_vaapi_driver.Prelude.{
  ℕ, suc, ◌+◌, ◌*◌, ◌/◌, ◌^◌, ◌≤◌, ◌<◌, ◌≡◌, ◌≢◌, ◌⊎◌, inl, inr, ltb, arith, false, Bool-cases,
  tests,
}
use native.Mathlib.Nat.{pow-suc, pow-le-pow_right}
use nvidia_vaapi_driver.IntervalIndex.Tree.{Tree, nil, branch, height, size, balanced, inserted}

-- No two siblings differ by more than one in height.
abbrev pub IsBalanced : Tree → Type 0
IsBalanced nil = Unit {0}
IsBalanced (branch i s e l r) =
    (height l ≤ height r + 1) × (height r ≤ height l + 1) × IsBalanced l × IsBalanced r

-- No interval of the tree starts there.
abbrev pub IsNew : ℕ → Tree → Type 0
IsNew start nil = Unit {0}
IsNew start (branch i s e l r) = (start ≢ s) × IsNew start l × IsNew start r

-- The higher subtree lies on the way of the new interval, which may be the root itself.
abbrev pub Leans : ℕ → Tree → Type 0
Leans start nil = ⊥
Leans start (branch i s e l r) =
    (start < s → height l ≡ height r + 1)
    × (s < start → height r ≡ height l + 1)
    × (start ≡ s → (height l ≡ 0) × (height r ≡ 0))

-- The result of an insertion: balanced, and higher by one at most.
pub record Grows (start : ℕ) (t t' : Tree) : Type 0 where
  pub even : IsBalanced t'
  pub bounds : (height t' ≡ height t) ⊎ ((height t' ≡ height t + 1) × Leans start t')

-- A tree with two levels does not have the new interval at its root.
outside :
    (start s : ℕ) (x m : Tree)
    → ltb s start ≡ false
    → (start ≡ s → (height x ≡ 0) × (height m ≡ 0))
    → 0 < height m
    → start < s
outside start s x m f h pos = ground arith

balanced_left-Grows :
    (start i s e : ℕ) (l l' r : Tree)
    → start < s
    → IsBalanced (branch i s e l r)
    → Grows start l l'
    → Grows start (branch i s e l r) (balanced start i s e l' r)
unfolding balanced
balanced_left-Grows start i s e l nil r lt b g = record {
  even = ground arith;
  bounds = ground arith;
}
balanced_left-Grows start i s e l (branch j s' e' x nil) r lt b g = record {
  even = ground arith;
  bounds = ground arith;
}
balanced_left-Grows start i s e l (branch j s' e' x (branch k s'' e'' y z)) r lt b g =
    let m = branch k s'' e'' y z in
    let l' = branch j s' e' x m in
    let even = g.even in
    elim (Bool-cases (ltb (height r + 1) (height l'))) [
      | inr f ↦
          let f' : ltb (height l' + 1) (height r) ≡ false = ground arith in
          rw (f, f') (record { even = ground arith; bounds = ground arith })
      | inl t ↦
          let lean : (height l' ≡ height l + 1) × Leans start l' = ground arith in
          let tall : height l' ≡ height r + 2 = ground arith in
          elim (Bool-cases (ltb s' start)) [
            | inl inner ↦
                let h : height m ≡ height x + 1 = lean.1.1 (ground arith) in
                rw (t, inner) (record { even = ground arith; bounds = ground arith })
            | inr outer ↦
                let h : height x ≡ height m + 1 =
                  lean.1.0 (outside start s' x m (ground arith) lean.1.2 (ground arith)) in
                rw (t, outer) (record { even = ground arith; bounds = ground arith })
          ]
    ]

balanced_right-Grows :
    (start i s e : ℕ) (l r r' : Tree)
    → s < start
    → IsBalanced (branch i s e l r)
    → Grows start r r'
    → Grows start (branch i s e l r) (balanced start i s e l r')
unfolding balanced
balanced_right-Grows start i s e l r nil lt b g = record {
  even = ground arith;
  bounds = ground arith;
}
balanced_right-Grows start i s e l r (branch j s' e' nil x) lt b g = record {
  even = ground arith;
  bounds = ground arith;
}
balanced_right-Grows start i s e l r (branch j s' e' (branch k s'' e'' y z) x) lt b g =
    let m = branch k s'' e'' y z in
    let r' = branch j s' e' m x in
    let even = g.even in
    elim (Bool-cases (ltb (height l + 1) (height r'))) [
      | inr f ↦
          let f' : ltb (height r' + 1) (height l) ≡ false = ground arith in
          rw (f, f') (record { even = ground arith; bounds = ground arith })
      | inl t ↦
          let f' : ltb (height r' + 1) (height l) ≡ false = ground arith in
          let lean : (height r' ≡ height r + 1) × Leans start r' = ground arith in
          let tall : height r' ≡ height l + 2 = ground arith in
          elim (Bool-cases (ltb start s')) [
            | inl inner ↦
                let h : height m ≡ height x + 1 = lean.1.0 (ground arith) in
                rw (f', t, inner) (record { even = ground arith; bounds = ground arith })
            | inr outer ↦
                let h : height x ≡ height m + 1 = lean.1.1 (ground arith) in
                rw (f', t, outer) (record { even = ground arith; bounds = ground arith })
          ]
    ]

-- Insertion of an interval that starts where no other does keeps the tree balanced and adds one
-- level at most.
pub inserted-Grows :
    (id start end : ℕ) (t : Tree)
    → IsNew start t
    → IsBalanced t
    → Grows start t (inserted id start end t)
unfolding inserted
inserted-Grows id start end nil n b = record { even = ground arith; bounds = ground arith }
inserted-Grows id start end (branch i s e l r) n b = elim (Bool-cases (ltb start s)) [
  | inl below ↦ rw below (
      balanced_left-Grows start i s e l _ r (ground arith) b
        (inserted-Grows id start end l n.1 b.2))
  | inr above ↦ rw above (
      balanced_right-Grows start i s e l r _ (ground (arith, n.0)) b
        (inserted-Grows id start end r n.2 b.3))
]

pow_mono : (a b : ℕ) → a ≤ b → 2 ^ a ≤ 2 ^ b
pow_mono a b h = pow-le-pow_right (omega arith) h

-- The halves of a height and of those below it.
half_step : (k a : ℕ) → k ≤ a + 1 → 2 ^ ((1 + k) / 2) ≤ 2 * 2 ^ (a / 2)
half_step k a h =
    omega (arith, pow-suc 2 (a / 2), pow_mono ((1 + k) / 2) (suc (a / 2)) (omega arith))

-- A balanced tree of height h has at least 2 ^ (h / 2) - 1 nodes.
pub size-IsBalanced : (t : Tree) → IsBalanced t → 2 ^ (height t / 2) ≤ size t + 1
size-IsBalanced nil b = omega arith
size-IsBalanced (branch i s e l r) b = elim (Bool-cases (ltb (height r) (height l))) [
  | inl t ↦ rw t (
      omega (
        arith,
        size-IsBalanced l b.2,
        size-IsBalanced r b.3,
        half_step (height l) (height r) b.0,
        pow_mono (height r / 2) (height l / 2) (omega tests),
      ))
  | inr f ↦ rw f (
      omega (
        arith,
        size-IsBalanced l b.2,
        size-IsBalanced r b.3,
        half_step (height r) (height l) b.1,
        pow_mono (height l / 2) (height r / 2) (ground arith),
      ))
]

-- The levels of an index of at most 4096 intervals.
pub height-lt : (t : Tree) → IsBalanced t → size t ≤ 4096 → height t < 26
height-lt t b h = elim (Bool-cases (ltb (height t) 26)) [
  | inl low ↦ omega tests
  | inr high ↦
      absurd (omega (arith, size-IsBalanced t b, pow_mono 13 (height t / 2) (ground arith)))
]
