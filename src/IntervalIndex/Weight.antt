-- ===== src/IntervalIndex/Weight.antt =====
-- src/av1-interval-index.c: insertion adds one node and keeps the others.
use nvidia_vaapi_driver.Prelude.{ℕ, ◌+◌, ◌≡◌, refl, ◌∙◌, inl, inr, Bool-cases, ltb, arith}
use nvidia_vaapi_driver.IntervalIndex.Tree.{
  Tree, nil, branch, weigh, rotated_left, rotated_right, balanced, inserted,
}
use nvidia_vaapi_driver.IntervalIndex.Order.{balanced-keeps, turned_left-keeps, turned_right-keeps}

module _ (f : ℕ → ℕ → ℕ → ℕ) where
  weigh-rotated_left : (t : Tree) → weigh f (rotated_left t) ≡ weigh f t
  weigh-rotated_left nil = refl
  weigh-rotated_left (branch i s e l nil) = refl
  weigh-rotated_left (branch i s e l (branch j s' e' m r)) = omega arith

  weigh-rotated_right : (t : Tree) → weigh f (rotated_right t) ≡ weigh f t
  weigh-rotated_right nil = refl
  weigh-rotated_right (branch i s e nil r) = refl
  weigh-rotated_right (branch i s e (branch j s' e' l m) r) = omega arith

  pub weigh-balanced :
      (start i s e : ℕ) (l r : Tree)
      → weigh f (balanced start i s e l r) ≡ weigh f (branch i s e l r)
  weigh-balanced start i s e l r =
      let w = weigh f (branch i s e l r) in
      balanced-keeps (λ t. weigh f t ≡ w) start i s e l r (λ t h. weigh-rotated_left t ∙ h)
        (λ t h. weigh-rotated_right t ∙ h)
        (λ h.
          let k =
            turned_left-keeps (λ t. weigh f t ≡ weigh f l) start l (λ _. weigh-rotated_left l)
              refl in
          omega (arith, k))
        (λ h.
          let k =
            turned_right-keeps (λ t. weigh f t ≡ weigh f r) start r (λ _. weigh-rotated_right r)
              refl in
          omega (arith, k))
        refl

  -- The new node counts once, every other as before.
  pub weigh-inserted :
      (id start end : ℕ) (t : Tree) → weigh f (inserted id start end t) ≡ f id start end + weigh f t
  unfolding inserted
  weigh-inserted id start end nil = omega arith
  weigh-inserted id start end (branch i s e l r) = elim (Bool-cases (ltb start s)) [
    | inl t ↦ rw t (
        omega (
          arith,
          weigh-balanced start i s e (inserted id start end l) r,
          weigh-inserted id start end l,
        ))
    | inr t ↦ rw t (
        omega (
          arith,
          weigh-balanced start i s e l (inserted id start end r),
          weigh-inserted id start end r,
        ))
  ]
