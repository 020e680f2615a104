-- ===== src/IntervalIndex/Order.antt =====
-- src/av1-interval-index.c: the order of the intervals in the tree, and what the search finds out.
use nvidia_vaapi_driver.Prelude.{
  ℕ, ◌+◌, ◌≤◌, ◌<◌, ◌≡◌, ◌⊎◌, ◌↔◌, inl, inr, refl, ltb, leb, if◌then◌else◌, arith, Bool, true,
  false, Bool-cases, tests,
}
use nvidia_vaapi_driver.IntervalIndex.Tree.{
  Tree, nil, branch, height, start_of, rotated_left, rotated_right, turned_left, turned_right,
  balanced, inserted,
}
use nvidia_vaapi_driver.IntervalIndex.Balance.{IsNew}

-- Between `lo` and `hi`, from left to right, without overlap.
abbrev pub IsOrdered : ℕ → Tree → ℕ → Type 0
IsOrdered lo nil hi = lo ≤ hi
IsOrdered lo (branch i s e l r) hi = IsOrdered lo l s × (s < e) × IsOrdered e r hi

-- No interval of the tree overlaps.
abbrev pub IsFree : ℕ → ℕ → Tree → Type 0
IsFree start end nil = Unit {0}
IsFree start end (branch i s e l r) =
    ((end ≤ s) ⊎ (e ≤ start)) × IsFree start end l × IsFree start end r

pub IsOrdered-le : (lo hi : ℕ) (t : Tree) → IsOrdered lo t hi → lo ≤ hi
IsOrdered-le lo hi nil h = h
IsOrdered-le lo hi (branch i s e l r) h =
    omega (arith, IsOrdered-le lo s l h.0, IsOrdered-le e hi r h.2)

rotated_left-IsOrdered :
    (lo hi : ℕ) (t : Tree) → IsOrdered lo t hi → IsOrdered lo (rotated_left t) hi
rotated_left-IsOrdered lo hi nil h = h
rotated_left-IsOrdered lo hi (branch i s e l nil) h = h
rotated_left-IsOrdered lo hi (branch i s e l (branch j s' e' m r)) h =
    ((h.0, h.1, h.2.0), h.2.1, h.2.2)

rotated_right-IsOrdered :
    (lo hi : ℕ) (t : Tree) → IsOrdered lo t hi → IsOrdered lo (rotated_right t) hi
rotated_right-IsOrdered lo hi nil h = h
rotated_right-IsOrdered lo hi (branch i s e nil r) h = h
rotated_right-IsOrdered lo hi (branch i s e (branch j s' e' l m) r) h =
    (h.0.0, h.0.1, (h.0.2, h.1, h.2))

-- Whatever a rotation keeps, `balanced` keeps.
pub balanced-keeps :
    (P : Tree → Type 0) (start i s e : ℕ) (l r : Tree)
    → ((t : Tree) → P t → P (rotated_left t))
    → ((t : Tree) → P t → P (rotated_right t))
    → (P (branch i s e l r) → P (branch i s e (turned_left start l) r))
    → (P (branch i s e l r) → P (branch i s e l (turned_right start r)))
    → P (branch i s e l r)
    → P (balanced start i s e l r)
unfolding balanced
balanced-keeps P start i s e l r left right inner_left inner_right h =
    elim (Bool-cases (ltb (height r + 1) (height l))) [
      | inl t ↦ rw t (right _ (inner_left h))
      | inr f ↦ elim (Bool-cases (ltb (height l + 1) (height r))) [
        | inl t ↦ rw (f, t) (left _ (inner_right h))
        | inr f' ↦ rw (f, f') h
      ]
    ]

pub turned_left-keeps :
    (P : Tree → Type 0) (start : ℕ) (l : Tree)
    → (P l → P (rotated_left l))
    → P l
    → P (turned_left start l)
turned_left-keeps P start l f h = elim (Bool-cases (ltb (start_of l) start)) [
  | inl t ↦ rw t (f h)
  | inr t ↦ rw t h
]

pub turned_right-keeps :
    (P : Tree → Type 0) (start : ℕ) (l : Tree)
    → (P l → P (rotated_right l))
    → P l
    → P (turned_right start l)
turned_right-keeps P start l f h = elim (Bool-cases (ltb start (start_of l))) [
  | inl t ↦ rw t (f h)
  | inr t ↦ rw t h
]

balanced-IsOrdered :
    (lo hi start i s e : ℕ) (l r : Tree)
    → IsOrdered lo (branch i s e l r) hi
    → IsOrdered lo (balanced start i s e l r) hi
balanced-IsOrdered lo hi start i s e l r h =
    balanced-keeps (λ t. IsOrdered lo t hi) start i s e l r (rotated_left-IsOrdered lo hi)
      (rotated_right-IsOrdered lo hi)
      (λ k. (
        turned_left-keeps (λ t. IsOrdered lo t s) start l (rotated_left-IsOrdered lo s l) k.0,
        k.1,
        k.2,
      ))
      (λ k. (
        k.0,
        k.1,
        turned_right-keeps (λ t. IsOrdered e t hi) start r (rotated_right-IsOrdered e hi r) k.2,
      ))
      h

-- An interval that overlaps none keeps the order.
pub inserted-IsOrdered :
    (id start end lo hi : ℕ) (t : Tree)
    → lo ≤ start
    → start < end
    → end ≤ hi
    → IsFree start end t
    → IsOrdered lo t hi
    → IsOrdered lo (inserted id start end t) hi
unfolding inserted
inserted-IsOrdered id start end lo hi nil a b c f h = (a, b, c)
inserted-IsOrdered id start end lo hi (branch i s e l r) a b c f h =
    elim (Bool-cases (ltb start s)) [
      | inl t ↦
          let below : end ≤ s = ground (arith, h.1, f.0) in
          rw t (
            balanced-IsOrdered lo hi start i s e _ r
              (inserted-IsOrdered id start end lo s l a b below f.1 h.0, h.1, h.2))
      | inr t ↦
          let above : e ≤ start = ground (arith, h.1, f.0) in
          rw t (
            balanced-IsOrdered lo hi start i s e l _
              (h.0, h.1, inserted-IsOrdered id start end e hi r above b c f.2 h.2))
    ]

-- A free interval starts where no other does.
pub IsFree-IsNew :
    (start end lo hi : ℕ) (t : Tree)
    → start < end
    → IsOrdered lo t hi
    → IsFree start end t
    → IsNew start t
IsFree-IsNew start end lo hi nil a h f = tt
IsFree-IsNew start end lo hi (branch i s e l r) a h f = (
  ground (arith, h.1, f.0),
  IsFree-IsNew start end lo s l a h.0 f.1,
  IsFree-IsNew start end e hi r a h.2 f.2,
)

-- Outside of what the tree spans everything is free.
pub IsFree-above :
    (start end lo hi : ℕ) (t : Tree) → hi ≤ start → IsOrdered lo t hi → IsFree start end t
IsFree-above start end lo hi nil a h = tt
IsFree-above start end lo hi (branch i s e l r) a h = (
  inr (omega (arith, IsOrdered-le e hi r h.2)),
  IsFree-above start end lo s l (omega (arith, h.1, IsOrdered-le e hi r h.2)) h.0,
  IsFree-above start end e hi r a h.2,
)

pub IsFree-below :
    (start end lo hi : ℕ) (t : Tree) → end ≤ lo → IsOrdered lo t hi → IsFree start end t
IsFree-below start end lo hi nil a h = tt
IsFree-below start end lo hi (branch i s e l r) a h = (
  inl (omega (arith, IsOrdered-le lo s l h.0)),
  IsFree-below start end lo s l a h.0,
  IsFree-below start end e hi r (omega (arith, h.1, IsOrdered-le lo s l h.0)) h.2,
)

-- The walk of the search loop down the tree.
unfoldable pub is_free : ℕ → ℕ → Tree → Bool
is_free start end nil = true
is_free start end (branch i s e l r) =
    if leb end s then is_free start end l else if leb e start then is_free start end r else false

-- In order, the walk finds every overlap.
pub is_free_iff :
    (start end lo hi : ℕ) (t : Tree)
    → start < end
    → IsOrdered lo t hi
    → (is_free start end t ≡ true) ↔ IsFree start end t
unfolding is_free
is_free_iff start end lo hi nil a h = (λ _. tt, λ _. refl)
is_free_iff start end lo hi (branch i s e l r) a h = elim (Bool-cases (leb end s)) [
  | inl left ↦
      let ih = is_free_iff start end lo s l a h.0 in
      rw left (
        λ k. (inl (omega tests), ih.0 k, IsFree-below start end e hi r (omega (tests, h.1)) h.2),
        λ f. ih.1 f.1,
      )
  | inr f1 ↦ elim (Bool-cases (leb e start)) [
    | inl right ↦
        let ih = is_free_iff start end e hi r a h.2 in
        rw (f1, right)
          (
            λ k.
                (inr (omega tests), IsFree-above start end lo s l (omega (tests, h.1)) h.0, ih.0 k),
            λ f. ih.1 f.2,
          )
    | inr f2 ↦ rw (f1, f2) (λ k. cc, λ f. ground (arith, f.0))
  ]
]

pub IsOrdered-mono : (lo hi hi' : ℕ) (t : Tree) → hi ≤ hi' → IsOrdered lo t hi → IsOrdered lo t hi'
IsOrdered-mono lo hi hi' nil le h = omega arith
IsOrdered-mono lo hi hi' (branch i s e l r) le h = (h.0, h.1, IsOrdered-mono e hi hi' r le h.2)
