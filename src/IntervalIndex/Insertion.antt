-- ===== src/IntervalIndex/Insertion.antt =====
-- src/av1-interval-index.c: the static function insert on the nodes of a tree.
use nvidia_vaapi_driver.Prelude.{
  ℕ, zero, suc, ◌+◌, ◌≤◌, ◌<◌, ◌≡◌, inl, inr, refl, ap, ◌∙◌, ltb, ◌==◌, if◌then◌else◌, arith, true,
  false, Bool-cases, some,
}
use nvidia_vaapi_driver.IntervalIndex.{
  Node, Nodes, rebalance, put_left, put_right, update_height, insert, leaf_node,
}
use nvidia_vaapi_driver.IntervalIndex.Tree.{
  Tree, nil, branch, height, root_id, occurs, start_of, inserted,
}
use nvidia_vaapi_driver.IntervalIndex.Store.{Stores, Stores-congr}
use nvidia_vaapi_driver.IntervalIndex.Weight.{weigh-inserted, weigh-balanced}
use nvidia_vaapi_driver.IntervalIndex.Rotations.{IsProper, Becomes, higher_bounds}
use nvidia_vaapi_driver.IntervalIndex.Balance.{IsNew, IsBalanced, Grows, Leans, inserted-Grows}
use nvidia_vaapi_driver.IntervalIndex.Rebalance.{
  IsTurnable, rebalance-Becomes, Becomes-trans, Stores-Loose, put_left-Loose, put_right-Loose,
  update_height-Stores, root_alone, not_root, write_ne, higher_le, higher_le', IsProper-left,
  IsProper-right, right_of, left_of,
}

-- A subtree that became too high leans to the side of the new interval.
right_of-pos :
    (start k : ℕ) (l l' : Tree)
    → Grows start l l'
    → height l ≤ k + 1
    → k + 1 < height l'
    → start_of l' < start
    → 0 < height (right_of l')
right_of-pos start k l nil g b tall h = absurd (omega arith)
right_of-pos start k l (branch i s e x y) g b tall h =
    let lean : (height (branch i s e x y) ≡ height l + 1) × Leans start (branch i s e x y) =
      ground (arith, g.bounds) in
    omega (arith, lean.1.1 h)

left_of-pos :
    (start k : ℕ) (r r' : Tree)
    → Grows start r r'
    → height r ≤ k + 1
    → k + 1 < height r'
    → start < start_of r'
    → 0 < height (left_of r')
left_of-pos start k r nil g b tall h = absurd (omega arith)
left_of-pos start k r (branch i s e x y) g b tall h =
    let lean : (height (branch i s e x y) ≡ height r + 1) × Leans start (branch i s e x y) =
      ground (arith, g.bounds) in
    omega (arith, lean.1.0 h)

grown_bounds :
    (start : ℕ) (t t' : Tree)
    → Grows start t t'
    → (height t ≤ height t') × (height t' ≤ height t + 1)
grown_bounds start t t' g = ground (arith, g.bounds)

-- One level of the recursion.
insert_left :
    (f : ℕ) (n : Nodes) (i added start s a : ℕ) (r : ℕ × Nodes)
    → 0 < i
    → (n added).start ≡ start
    → (n i).start ≡ s
    → (n i).left ≡ a
    → ltb start s ≡ true
    → insert f n a added ≡ some r
    → insert (suc f) n i added ≡ some (rebalance (update_height (put_left i r) i) i start)
unfolding insert
insert_left f n i added start s a r pos p q e lt h = ground arith

insert_right :
    (f : ℕ) (n : Nodes) (i added start s a : ℕ) (r : ℕ × Nodes)
    → 0 < i
    → (n added).start ≡ start
    → (n i).start ≡ s
    → (n i).right ≡ a
    → ltb start s ≡ false
    → insert f n a added ≡ some r
    → insert (suc f) n i added ≡ some (rebalance (update_height (put_right i r) i) i start)
unfolding insert
insert_right f n i added start s a r pos p q e lt h = ground arith

pub below_height : (l r f : ℕ) → 1 + (if ltb r l then l else r) < suc f → (l < f) × (r < f)
below_height l r f h = ground arith

pub root_pos : (i s e : ℕ) (l r : Tree) → occurs 0 (branch i s e l r) ≡ 0 → 0 < i
root_pos i s e l r h = ground arith

module _ (added start end : ℕ) where
  -- A proper tree after the insertion of a new node into one of its subtrees.
  IsProper-grown :
      (i s e : ℕ) (l r l' r' : Tree)
      → let t = branch i s e l r in
        let t' = branch i s e l' r' in
        ((a : ℕ)
          → occurs a l' + occurs a r' ≡ (if added == a then 1 else 0) + occurs a l + occurs a r)
        → IsProper t
        → 0 < added
        → occurs added t ≡ 0
        → height t' ≤ 190
        → IsProper t'
  IsProper-grown i s e l r l' r' o p pos new low = record {
    once = λ a. elim (Bool-cases (added == a)) [
      | inl q ↦
          let q' : added ≡ a = ground arith in
          let one : (if added == a then 1 else 0) ≤ 1 = ground arith in
          omega (arith, o a, new, ap (λ (b : ℕ). occurs b (branch i s e l r)) q', one)
      | inr q ↦
          let none_new : ◌≡◌ {A = ℕ} (if added == a then 1 else 0) 0 = ground arith in
          omega (arith, o a, p.once a, none_new)
    ];
    no_null =
        let none_new : ◌≡◌ {A = ℕ} (if added == 0 then 1 else 0) 0 = ground arith in
        omega (arith, o 0, p.no_null, none_new);
    low = omega arith;
  }

  -- What insert has done, with fuel for one level more than the tree has.
  abbrev Inserts : ℕ → Nodes → Tree → Type 0
  Inserts f n t =
      (r : ℕ × Nodes) × (insert f n (root_id t) added ≡ some r)
      × Becomes n r (inserted added start end t)

  insert_left-Inserts :
      (f : ℕ) (n : Nodes) (i s e : ℕ) (l r : Tree)
      → let t = branch i s e l r in
        ltb start s ≡ true
        → Stores n t
        → IsProper t
        → height t ≤ 180
        → IsBalanced t
        → n added ≡ leaf_node start end
        → occurs added t ≡ 0
        → 0 < added
        → Grows start l (inserted added start end l)
        → Inserts f n l
        → Inserts (suc f) n t
  unfolding inserted
  insert_left-Inserts f n i s e l r lt st p low b v new pos g (c, e1, b1) =
      let l' = inserted added start end l in
      let t' = branch i s e l' r in
      let (no_l, no_r) = root_alone i s e l r (p.once i) in
      let o = λ (a : ℕ). weigh-inserted (λ j x y. if j == a then 1 else 0) added start end l in
      let (lo, hi) = grown_bounds start l l' g in
      let low' : height t' ≤ 181 = higher_le (height l) (height l') (height r) 180 low hi in
      let proper : IsProper t' =
        IsProper-grown i s e l r l' r (λ a. omega (arith, o a)) p pos new (omega arith) in
      let (no_l', no_r') = root_alone i s e l' r (proper.once i) in
      let m = c.1 in
      let loose =
        put_left-Loose n m i s e l r (b1.frame i no_l') c.0 l'
          (Stores-Loose n (branch i s e l r) st).0 b1.root no_l' no_r b1.stores
          (Stores-congr n m r (λ a h. b1.frame a (omega (arith, proper.once a, h))) st.2) in
      let n2 = put_left i (c.0, m) in
      let (hl, hr) = higher_bounds (height l') (height r) 180 low' in
      let stored =
        update_height-Stores n2 i s e l' r no_l' no_r proper.no_null (omega arith) (omega arith)
          loose in
      let turn : IsTurnable start l' r = record {
        left_inner = right_of-pos start (height r) l l' g b.0;
        right_inner = λ h _. absurd (omega (arith, b.1));
      } in
      let b2 =
        rebalance-Becomes (update_height n2 i) i s e start l' r stored proper (omega arith) turn in
      (
        rebalance (update_height n2 i) i start,
        insert_left f n i added start s (root_id l) c (root_pos i s e l r p.no_null)
            (ap (λ (w : Node). w.start) v) (ap (λ (w : Node). w.start) st.0)
            (ap (λ (w : Node). w.left) st.0) lt e1,
        rw lt (
            Becomes-trans n (update_height n2 i) t' _ _
              (λ a h.
                let h' = weigh-balanced (λ j x y. if j == a then 1 else 0) start i s e l' r in
                let ne = not_root a i s e l' r (omega (arith, h, h')) in
                write_ne n2 i a _ ne ∙ write_ne m i a _ ne ∙ b1.frame a (omega (arith, h, h')))
              b2),
      )

  insert_right-Inserts :
      (f : ℕ) (n : Nodes) (i s e : ℕ) (l r : Tree)
      → let t = branch i s e l r in
        ltb start s ≡ false
        → Stores n t
        → IsProper t
        → height t ≤ 180
        → IsBalanced t
        → n added ≡ leaf_node start end
        → occurs added t ≡ 0
        → 0 < added
        → Grows start r (inserted added start end r)
        → Inserts f n r
        → Inserts (suc f) n t
  unfolding inserted
  insert_right-Inserts f n i s e l r ge st p low b v new pos g (c, e1, b1) =
      let r' = inserted added start end r in
      let t' = branch i s e l r' in
      let (no_l, no_r) = root_alone i s e l r (p.once i) in
      let o = λ (a : ℕ). weigh-inserted (λ j x y. if j == a then 1 else 0) added start end r in
      let (lo, hi) = grown_bounds start r r' g in
      let low' : height t' ≤ 181 = higher_le' (height l) (height r) (height r') 180 low hi in
      let proper : IsProper t' =
        IsProper-grown i s e l r l r' (λ a. omega (arith, o a)) p pos new (omega arith) in
      let (no_l', no_r') = root_alone i s e l r' (proper.once i) in
      let m = c.1 in
      let loose =
        put_right-Loose n m i s e l r (b1.frame i no_r') c.0 r'
          (Stores-Loose n (branch i s e l r) st).0 b1.root no_r' no_l b1.stores
          (Stores-congr n m l (λ a h. b1.frame a (omega (arith, proper.once a, h))) st.1) in
      let n2 = put_right i (c.0, m) in
      let (hl, hr) = higher_bounds (height l) (height r') 180 low' in
      let stored =
        update_height-Stores n2 i s e l r' no_l' no_r' proper.no_null (omega arith) (omega arith)
          loose in
      let turn : IsTurnable start l r' = record {
        left_inner = λ h _. absurd (omega (arith, b.0));
        right_inner = left_of-pos start (height l) r r' g b.1;
      } in
      let b2 =
        rebalance-Becomes (update_height n2 i) i s e start l r' stored proper (omega arith) turn in
      (
        rebalance (update_height n2 i) i start,
        insert_right f n i added start s (root_id r) c (root_pos i s e l r p.no_null)
            (ap (λ (w : Node). w.start) v) (ap (λ (w : Node). w.start) st.0)
            (ap (λ (w : Node). w.right) st.0) ge e1,
        rw ge (
            Becomes-trans n (update_height n2 i) t' _ _
              (λ a h.
                let h' = weigh-balanced (λ j x y. if j == a then 1 else 0) start i s e l r' in
                let ne = not_root a i s e l r' (omega (arith, h, h')) in
                write_ne n2 i a _ ne ∙ write_ne m i a _ ne ∙ b1.frame a (omega (arith, h, h')))
              b2),
      )

  -- On the nodes of a balanced tree, with fuel for one level more than it has, insert ends, and
  -- leaves the nodes of the tree that `inserted` makes.
  pub insert-Inserts :
      (f : ℕ) (n : Nodes) (t : Tree)
      → height t < f
      → Stores n t
      → IsProper t
      → height t ≤ 180
      → IsBalanced t
      → IsNew start t
      → n added ≡ leaf_node start end
      → occurs added t ≡ 0
      → 0 < added
      → (r : ℕ × Nodes) × (insert f n (root_id t) added ≡ some r)
        × Becomes n r (inserted added start end t)
  insert-Inserts zero n t h st p low b fresh v new pos = elim h [ ]
  insert-Inserts (suc f) n nil h st p low b fresh v new pos = (
    (added, n),
    (unfold insert in refl),
    (unfold inserted in record { root = refl; stores = (v, tt, tt); frame = λ a h. refl }),
  )
  insert-Inserts (suc f) n (branch i s e l r) h st p low b fresh v new pos =
      let (hl, hr) = below_height (height l) (height r) f h in
      let (ll, lr) = higher_bounds (height l) (height r) 179 low in
      elim (Bool-cases (ltb start s)) [
        | inl lt ↦
            insert_left-Inserts f n i s e l r lt st p low b v new pos
              (inserted-Grows added start end l fresh.1 b.2)
              (insert-Inserts f n l hl st.1 (IsProper-left i s e l r p) (omega arith) b.2 fresh.1 v
                (omega (arith, new)) pos)
        | inr ge ↦
            insert_right-Inserts f n i s e l r ge st p low b v new pos
              (inserted-Grows added start end r fresh.2 b.3)
              (insert-Inserts f n r hr st.2 (IsProper-right i s e l r p) (omega arith) b.3 fresh.2 v
                (omega (arith, new)) pos)
      ]
