-- ===== src/IntervalIndex/Rebalance.antt =====
-- src/av1-interval-index.c: the lines of insert that restore the balance, on the nodes of a tree.
use nvidia_vaapi_driver.Prelude.{
  ℕ, ◌+◌, ◌≤◌, ◌<◌, ◌≡◌, ◌≢◌, inl, inr, refl, ap, ◌∙◌, ltb, if◌then◌else◌, arith, true, false,
  Bool-cases, ltb→lt,
}
use nvidia_vaapi_driver.IntervalIndex.{
  Node, Nodes, write, height_of, rotate_left, rotate_right, above, rebalance, put_left, put_right,
  update_height,
}
use nvidia_vaapi_driver.IntervalIndex.Tree.{
  Tree, nil, branch, height, root_id, occurs, start_of, rotated_left, rotated_right, turned_left,
  turned_right, balanced,
}
use nvidia_vaapi_driver.IntervalIndex.Store.{node, Stores, Stores-congr, height_of-root}
use nvidia_vaapi_driver.IntervalIndex.Rotations.{
  IsProper, Loose, Becomes, kept, above_lem, higher_bounds, rotate_left-Becomes,
  rotate_right-Becomes,
}

pub Stores-Loose : (n : Nodes) (t : Tree) → Stores n t → Loose n t
Stores-Loose n nil st = tt
Stores-Loose n (branch i s e l r) st = (cc st.0, st.1, st.2)

-- A subtree of `i` exchanged for another one.
module _ (n m : Nodes) (i s e : ℕ) (l r : Tree) (at_i : m i ≡ n i) where
  pub put_left-Loose :
      (c : ℕ) (l' : Tree)
      → n i ≡ node s e (root_id l) (root_id r) (n i).height
      → c ≡ root_id l'
      → occurs i l' ≡ 0
      → occurs i r ≡ 0
      → Stores m l'
      → Stores m r
      → Loose (put_left i (c, m)) (branch i s e l' r)
  put_left-Loose c l' p q no_l no_r sl sr = (
    ground (arith, p, q, at_i),
    kept m _ i i l' no_l no_l (λ a x _. ground arith) sl,
    kept m _ i i r no_r no_r (λ a x _. ground arith) sr,
  )

  pub put_right-Loose :
      (c : ℕ) (r' : Tree)
      → n i ≡ node s e (root_id l) (root_id r) (n i).height
      → c ≡ root_id r'
      → occurs i r' ≡ 0
      → occurs i l ≡ 0
      → Stores m r'
      → Stores m l
      → Loose (put_right i (c, m)) (branch i s e l r')
  put_right-Loose c r' p q no_r no_l sr sl = (
    ground (arith, p, q, at_i),
    kept m _ i i l no_l no_l (λ a x _. ground arith) sl,
    kept m _ i i r' no_r no_r (λ a x _. ground arith) sr,
  )

update_height_value :
    (n : Nodes) (i s e x y hx hy h : ℕ)
    → n i ≡ node s e x y (n i).height
    → height_of n x ≡ hx
    → height_of n y ≡ hy
    → above hx hy ≡ h
    → update_height n i i ≡ node s e x y h
update_height_value n i s e x y hx hy h p q r a = ground arith

pub update_height-Stores :
    (n : Nodes) (i s e : ℕ) (l r : Tree)
    → let t = branch i s e l r in
      occurs i l ≡ 0
      → occurs i r ≡ 0
      → occurs 0 t ≡ 0
      → height l ≤ 200
      → height r ≤ 200
      → Loose n t
      → Stores (update_height n i) t
update_height-Stores n i s e l r no_l no_r z hl hr st =
    let l_height = height_of-root n l (omega arith) st.1 in
    let r_height = height_of-root n r (omega arith) st.2 in
    let a = above_lem (height l) (height r) hl hr in
    (
      update_height_value n i s e (root_id l) (root_id r) (height l) (height r) _ st.0 l_height
          r_height a,
      kept n _ i i l no_l no_l (λ a x _. ground arith) st.1,
      kept n _ i i r no_r no_r (λ a x _. ground arith) st.2,
    )

-- The tests of the lines from `balance` on, read off the tree.
rebalance_lem :
    (n : Nodes) (i start a b ha hb : ℕ)
    → (n i).left ≡ a
    → (n i).right ≡ b
    → height_of n a ≡ ha
    → height_of n b ≡ hb
    → rebalance n i start ≡ (
        if ltb (hb + 1) ha
        then rotate_right (if ltb (n a).start start then put_left i (rotate_left n a) else n) i
        else if ltb (ha + 1) hb
        then rotate_left (if ltb start (n b).start then put_right i (rotate_right n b) else n) i
        else (i, n))
unfolding rebalance
rebalance_lem n i start a b ha hb p q r t = rw (p, q, r, t)

pub Becomes-trans :
    (n : Nodes) (m : Nodes) (t t' : Tree) (r : ℕ × Nodes)
    → ((a : ℕ) → occurs a t' ≡ 0 → m a ≡ n a)
    → Becomes m r t'
    → Becomes n r t'
Becomes-trans n m t t' r same b = record {
  root = b.root;
  stores = b.stores;
  frame = λ a h. b.frame a h ∙ same a h;
}

abbrev pub right_of : Tree → Tree
right_of nil = nil
right_of (branch i s e l r) = r

abbrev pub left_of : Tree → Tree
left_of nil = nil
left_of (branch i s e l r) = l

-- Where a double rotation is made there is a node to turn about.
pub record IsTurnable (start : ℕ) (l r : Tree) : Type 0 where
  pub left_inner : height r + 1 < height l → start_of l < start → 0 < height (right_of l)
  pub right_inner : height l + 1 < height r → start < start_of r → 0 < height (left_of r)

not_lt : (a b : ℕ) → (a < b → ⊥) → ltb a b ≡ false
not_lt a b h = ground arith

rotated_left_height : (t : Tree) → height (rotated_left t) ≤ height t + 1
rotated_left_height nil = omega arith
rotated_left_height (branch i s e l nil) = omega arith
rotated_left_height (branch i s e l (branch j s' e' m r)) = ground arith

rotated_right_height : (t : Tree) → height (rotated_right t) ≤ height t + 1
rotated_right_height nil = omega arith
rotated_right_height (branch i s e nil r) = omega arith
rotated_right_height (branch i s e (branch j s' e' l m) r) = ground arith

pub higher_le :
    (l l' r k : ℕ)
    → 1 + (if ltb r l then l else r) ≤ k
    → l' ≤ l + 1
    → 1 + (if ltb r l' then l' else r) ≤ k + 1
higher_le l l' r k h g = ground arith

pub higher_le' :
    (l r r' k : ℕ)
    → 1 + (if ltb r l then l else r) ≤ k
    → r' ≤ r + 1
    → 1 + (if ltb r' l then l else r') ≤ k + 1
higher_le' l r r' k h g = ground arith

pub root_alone :
    (i s e : ℕ) (l r : Tree) → occurs i (branch i s e l r) ≤ 1 → (occurs i l ≡ 0) × (occurs i r ≡ 0)
root_alone i s e l r h = ground arith

pub not_root : (a i s e : ℕ) (l r : Tree) → occurs a (branch i s e l r) ≡ 0 → a ≢ i
not_root a i s e l r h q = ground arith

pub write_ne : (m : Nodes) (i a : ℕ) (v : Node) → a ≢ i → write m i v a ≡ m a
write_ne m i a v ne = ground arith

pub IsProper-left : (i s e : ℕ) (l r : Tree) → IsProper (branch i s e l r) → IsProper l
IsProper-left i s e l r p = record {
  once = λ a. omega (arith, p.once a);
  no_null = omega (arith, p.no_null);
  low = let low = higher_bounds (height l) (height r) 199 p.low in omega (arith, low.0);
}

pub IsProper-right : (i s e : ℕ) (l r : Tree) → IsProper (branch i s e l r) → IsProper r
IsProper-right i s e l r p = record {
  once = λ a. omega (arith, p.once a);
  no_null = omega (arith, p.no_null);
  low = let low = higher_bounds (height l) (height r) 199 p.low in omega (arith, low.1);
}

module _ (n : Nodes) (i s e start : ℕ) where
  -- The left subtree turned to the left, as the first half of a double rotation.
  turned_inside-Loose :
      (j s' e' : ℕ) (x : Tree) (k s'' e'' : ℕ) (y z r : Tree)
      → let l = branch j s' e' x (branch k s'' e'' y z) in
        let t = branch i s e l r in
        Stores n t
        → IsProper t
        → Loose (put_left i (rotate_left n j)) (branch i s e (rotated_left l) r)
          × ((a : ℕ) → occurs a t ≡ 0 → put_left i (rotate_left n j) a ≡ n a)
  turned_inside-Loose j s' e' x k s'' e'' y z r st p =
      let l = branch j s' e' x (branch k s'' e'' y z) in
      let b =
        rotate_left-Becomes n j s' e' x k s'' e'' y z (Stores-Loose n l st.1)
          (IsProper-left i s e l r p) in
      let (no_l, no_r) = root_alone i s e l r (p.once i) in
      let m = (rotate_left n j).1 in
      (
        put_left-Loose n m i s e l r (b.frame i (omega (arith, no_l))) (rotate_left n j).0
            (rotated_left l) (Stores-Loose n (branch i s e l r) st).0 b.root (omega (arith, no_l))
            no_r b.stores (Stores-congr n m r (λ a h. b.frame a (omega (arith, p.once a, h))) st.2),
        λ a h. write_ne m i a _ (not_root a i s e l r h) ∙ b.frame a (omega (arith, h)),
      )

  turned_outside-Loose :
      (l : Tree) (j s' e' k s'' e'' : ℕ) (y z x : Tree)
      → let r = branch j s' e' (branch k s'' e'' y z) x in
        let t = branch i s e l r in
        Stores n t
        → IsProper t
        → Loose (put_right i (rotate_right n j)) (branch i s e l (rotated_right r))
          × ((a : ℕ) → occurs a t ≡ 0 → put_right i (rotate_right n j) a ≡ n a)
  turned_outside-Loose l j s' e' k s'' e'' y z x st p =
      let r = branch j s' e' (branch k s'' e'' y z) x in
      let b =
        rotate_right-Becomes n j s' e' k s'' e'' y z x (Stores-Loose n r st.2)
          (IsProper-right i s e l r p) in
      let (no_l, no_r) = root_alone i s e l r (p.once i) in
      let m = (rotate_right n j).1 in
      (
        put_right-Loose n m i s e l r (b.frame i (omega (arith, no_r))) (rotate_right n j).0
            (rotated_right r) (Stores-Loose n (branch i s e l r) st).0 b.root (omega (arith, no_r))
            no_l b.stores (Stores-congr n m l (λ a h. b.frame a (omega (arith, p.once a, h))) st.1),
        λ a h. write_ne m i a _ (not_root a i s e l r h) ∙ b.frame a (omega (arith, h)),
      )

  -- A left side that is too high.
  rebalance_left :
      (l r : Tree)
      → let t = branch i s e l r in
        Stores n t
        → IsProper t
        → height t ≤ 190
        → height r + 1 < height l
        → (start_of l < start → 0 < height (right_of l))
        → Becomes n
            (rotate_right
              (if ltb (n (root_id l)).start start
                then put_left i (rotate_left n (root_id l))
                else n)
              i)
            (rotated_right (branch i s e (turned_left start l) r))
  rebalance_left nil r st p low tall inner = absurd (omega arith)
  rebalance_left (branch j s' e' x nil) r st p low tall inner =
      let l = branch j s' e' x nil in
      let outer = not_lt s' start (λ h. omega (arith, inner h)) in
      let outer' : ltb (n j).start start ≡ false = rw st.1.0 outer in
      rw (outer, outer')
        (rotate_right-Becomes n i s e j s' e' x nil r (Stores-Loose n (branch i s e l r) st) p)
  rebalance_left (branch j s' e' x (branch k s'' e'' y z)) r st p low tall inner =
      let l = branch j s' e' x (branch k s'' e'' y z) in
      let t = branch i s e l r in
      elim (Bool-cases (ltb s' start)) [
        | inr outer ↦
            let outer' : ltb (n j).start start ≡ false = rw st.1.0 outer in
            rw (outer, outer')
              (rotate_right-Becomes n i s e j s' e' x (branch k s'' e'' y z) r (Stores-Loose n t st)
                p)
        | inl turn ↦
            let turn' : ltb (n j).start start ≡ true = rw st.1.0 turn in
            let (loose, same) = turned_inside-Loose j s' e' x k s'' e'' y z r st p in
            let proper : IsProper (branch i s e (rotated_left l) r) = record {
              once = λ a. omega (arith, p.once a);
              no_null = omega (arith, p.no_null);
              low =
                  let h =
                    higher_le (height l) (height (rotated_left l)) (height r) 190 low
                      (rotated_left_height l) in
                  omega (arith, h);
            } in
            let b =
              rotate_right-Becomes (put_left i (rotate_left n j)) i s e k s'' e''
                (branch j s' e' x y) z r loose proper in
            rw (turn, turn') (Becomes-trans n _ t _ _ (λ a h. same a (omega (arith, h))) b)
      ]

  rebalance_right :
      (l r : Tree)
      → let t = branch i s e l r in
        Stores n t
        → IsProper t
        → height t ≤ 190
        → height l + 1 < height r
        → (start < start_of r → 0 < height (left_of r))
        → Becomes n
            (rotate_left
              (if ltb start (n (root_id r)).start
                then put_right i (rotate_right n (root_id r))
                else n)
              i)
            (rotated_left (branch i s e l (turned_right start r)))
  rebalance_right l nil st p low tall inner = absurd (omega arith)
  rebalance_right l (branch j s' e' nil x) st p low tall inner =
      let r = branch j s' e' nil x in
      let outer = not_lt start s' (λ h. omega (arith, inner h)) in
      let outer' : ltb start (n j).start ≡ false = rw st.2.0 outer in
      rw (outer, outer')
        (rotate_left-Becomes n i s e l j s' e' nil x (Stores-Loose n (branch i s e l r) st) p)
  rebalance_right l (branch j s' e' (branch k s'' e'' y z) x) st p low tall inner =
      let r = branch j s' e' (branch k s'' e'' y z) x in
      let t = branch i s e l r in
      elim (Bool-cases (ltb start s')) [
        | inr outer ↦
            let outer' : ltb start (n j).start ≡ false = rw st.2.0 outer in
            rw (outer, outer')
              (rotate_left-Becomes n i s e l j s' e' (branch k s'' e'' y z) x (Stores-Loose n t st)
                p)
        | inl turn ↦
            let turn' : ltb start (n j).start ≡ true = rw st.2.0 turn in
            let (loose, same) = turned_outside-Loose l j s' e' k s'' e'' y z x st p in
            let proper : IsProper (branch i s e l (rotated_right r)) = record {
              once = λ a. omega (arith, p.once a);
              no_null = omega (arith, p.no_null);
              low =
                  let h =
                    higher_le' (height l) (height r) (height (rotated_right r)) 190 low
                      (rotated_right_height r) in
                  omega (arith, h);
            } in
            let b =
              rotate_left-Becomes (put_right i (rotate_right n j)) i s e l k s'' e'' y
                (branch j s' e' z x) loose proper in
            rw (turn, turn') (Becomes-trans n _ t _ _ (λ a h. same a (omega (arith, h))) b)
      ]

  -- From `balance` on the code does to the nodes what `balanced` does to the tree.
  pub rebalance-Becomes :
      (l r : Tree)
      → let t = branch i s e l r in
        Stores n t
        → IsProper t
        → height t ≤ 190
        → IsTurnable start l r
        → Becomes n (rebalance n i start) (balanced start i s e l r)
  unfolding balanced
  rebalance-Becomes l r st p low turn =
      let hl = height_of-root n l (omega (arith, p.no_null)) st.1 in
      let hr = height_of-root n r (omega (arith, p.no_null)) st.2 in
      rw
        (rebalance_lem n i start (root_id l) (root_id r) (height l) (height r)
          (ap (λ (v : Node). v.left) st.0) (ap (λ (v : Node). v.right) st.0) hl hr)
        (elim (Bool-cases (ltb (height r + 1) (height l))) [
          | inl t ↦
              rw t (rebalance_left l r st p low (ltb→lt _ _ t) (turn.left_inner (ltb→lt _ _ t)))
          | inr f ↦ elim (Bool-cases (ltb (height l + 1) (height r))) [
            | inl t ↦
                rw (f, t)
                  (rebalance_right l r st p low (ltb→lt _ _ t) (turn.right_inner (ltb→lt _ _ t)))
            | inr f' ↦ rw (f, f') (record { root = refl; stores = st; frame = λ a h. refl })
          ]
        ])
