-- ===== src/IntervalIndex/Rotations.antt =====
-- src/av1-interval-index.c: rotateLeft and rotateRight on the nodes of a tree, and the lines that
-- choose between them.
use nvidia_vaapi_driver.Prelude.{
  ℕ, suc, ◌+◌, ◌≤◌, ◌<◌, ◌≡◌, ◌≢◌, ap, ◌∙◌, ltb, ◌==◌, if◌then◌else◌, arith,
}
use nvidia_vaapi_driver.IntervalIndex.{Nodes, rotate_left, rotate_right, above}
use nvidia_vaapi_driver.IntervalIndex.Tree.{
  Tree, nil, branch, height, root_id, occurs, rotated_left, rotated_right,
}
use nvidia_vaapi_driver.IntervalIndex.Store.{
  node, Stores, Stores-congr, height_of-root, root_id-ne, rotate_left-Turned, rotate_right-Turned,
}

-- The nodes are one each, none of them 0, and their heights fit in eight bits.
pub record IsProper (t : Tree) : Type 0 where
  pub once : (a : ℕ) → occurs a t ≤ 1
  pub no_null : occurs 0 t ≡ 0
  pub low : height t ≤ 200

-- The array holds the tree, but for the height of its root.
abbrev pub Loose : Nodes → Tree → Type 0
Loose n nil = Unit {0}
Loose n (branch i s e l r) =
    (n i ≡ node s e (root_id l) (root_id r) (n i).height) × Stores n l × Stores n r

-- What a step leaves: the root and the nodes of `t`, and all other nodes as they were.
pub record Becomes (n : Nodes) (r : ℕ × Nodes) (t : Tree) : Type 0 where
  pub root : r.0 ≡ root_id t
  pub stores : Stores r.1 t
  pub frame : (a : ℕ) → occurs a t ≡ 0 → r.1 a ≡ n a

pub above_lem : (l r : ℕ) → l ≤ 200 → r ≤ 200 → above l r ≡ 1 + (if ltb r l then l else r)
above_lem l r p q = ground arith

pub higher_bounds : (l r k : ℕ) → 1 + (if ltb r l then l else r) ≤ suc k → (l ≤ k) × (r ≤ k)
higher_bounds l r k h = ground arith

pub joined_bound : (l r k : ℕ) → l ≤ k → r ≤ k → 1 + (if ltb r l then l else r) ≤ suc k
joined_bound l r k p q = ground arith

-- Two nodes and three functions that count the nodes of three subtrees: all apart.
record Apart (i j : ℕ) (x y z : ℕ → ℕ) : Type 0 where
  i_pos : 0 < i
  j_pos : 0 < j
  ij : i ≢ j
  no_i : (x i ≡ 0) × (y i ≡ 0) × (z i ≡ 0)
  no_j : (x j ≡ 0) × (y j ≡ 0) × (z j ≡ 0)
  no_null : (x 0 ≡ 0) × (y 0 ≡ 0) × (z 0 ≡ 0)

-- How often `a` occurs in a tree of these parts.
abbrev total : ℕ → ℕ → (ℕ → ℕ) → (ℕ → ℕ) → (ℕ → ℕ) → ℕ → ℕ
total i j x y z a = (if i == a then 1 else 0) + (if j == a then 1 else 0) + x a + y a + z a

total-Apart :
    (i j : ℕ) (x y z : ℕ → ℕ)
    → ((a : ℕ) → total i j x y z a ≤ 1)
    → total i j x y z 0 ≡ 0
    → Apart i j x y z
total-Apart i j x y z once null =
    let at_i = once i in
    let at_j = once j in
    record {
      i_pos = ground arith;
      j_pos = ground arith;
      ij = λ q. ground arith;
      no_i = ground arith;
      no_j = ground arith;
      no_null = ground arith;
    }

not_in_total : (i j : ℕ) (x y z : ℕ → ℕ) (a : ℕ) → total i j x y z a ≡ 0 → (a ≢ i) × (a ≢ j)
not_in_total i j x y z a h = (λ q. ground arith, λ q. ground arith)

-- The subtrees stay where they are.
pub kept :
    (n m : Nodes) (i j : ℕ) (t : Tree)
    → occurs i t ≡ 0
    → occurs j t ≡ 0
    → ((a : ℕ) → a ≢ i → a ≢ j → m a ≡ n a)
    → Stores n t
    → Stores m t
kept n m i j t no_i no_j same st =
    Stores-congr n m t
      (λ a k.
        same a (λ q. omega (arith, ap (λ (b : ℕ). occurs b t) q))
          (λ q. omega (arith, ap (λ (b : ℕ). occurs b t) q)))
      st

pub rotate_left-Becomes :
    (n : Nodes) (i s e : ℕ) (l : Tree) (j s' e' : ℕ) (m r : Tree)
    → let t = branch i s e l (branch j s' e' m r) in
      Loose n t → IsProper t → Becomes n (rotate_left n i) (rotated_left t)
rotate_left-Becomes n i s e l j s' e' m r st p =
    let t = branch i s e l (branch j s' e' m r) in
    let x = λ (a : ℕ). occurs a l in
    let y = λ (a : ℕ). occurs a m in
    let z = λ (a : ℕ). occurs a r in
    let once : (a : ℕ) → total i j x y z a ≤ 1 = λ a. omega (arith, p.once a) in
    let a = total-Apart i j x y z once (omega (arith, p.no_null)) in
    let v =
      rotate_left-Turned n i j (root_id l) (root_id m) (root_id r) s e (n i).height s' e'
        (height (branch j s' e' m r)) a.i_pos a.j_pos a.ij (root_id-ne l i a.i_pos a.no_i.0)
        (root_id-ne l j a.j_pos a.no_j.0) (root_id-ne m i a.i_pos a.no_i.1)
        (root_id-ne m j a.j_pos a.no_j.1) (root_id-ne r i a.i_pos a.no_i.2)
        (root_id-ne r j a.j_pos a.no_j.2) st.0 st.2.0 in
    let hl = height_of-root n l a.no_null.0 st.1 in
    let hm = height_of-root n m a.no_null.1 st.2.1 in
    let hr = height_of-root n r a.no_null.2 st.2.2 in
    let b1 = higher_bounds (height l) (height (branch j s' e' m r)) 199 p.low in
    let b2 = higher_bounds (height m) (height r) 198 b1.1 in
    let a1 = above_lem (height l) (height m) (omega arith) (omega arith) in
    let k = height (branch i s e l m) in
    let low : k ≤ 200 = joined_bound (height l) (height m) 199 b1.0 (omega arith) in
    let a2 = above_lem k (height r) low (omega arith) in
    record {
      root = v.top;
      stores = (
        v.upper ∙ rw (hl, hm, hr, a1, a2),
        (
          v.lower ∙ rw (hl, hm, a1),
          kept n _ i j l a.no_i.0 a.no_j.0 v.others st.1,
          kept n _ i j m a.no_i.1 a.no_j.1 v.others st.2.1,
        ),
        kept n _ i j r a.no_i.2 a.no_j.2 v.others st.2.2,
      );
      frame = λ b h. let (bi, bj) = not_in_total i j x y z b (omega (arith, h)) in v.others b bi bj;
    }

pub rotate_right-Becomes :
    (n : Nodes) (i s e j s' e' : ℕ) (l m r : Tree)
    → let t = branch i s e (branch j s' e' l m) r in
      Loose n t → IsProper t → Becomes n (rotate_right n i) (rotated_right t)
rotate_right-Becomes n i s e j s' e' l m r st p =
    let t = branch i s e (branch j s' e' l m) r in
    let x = λ (a : ℕ). occurs a l in
    let y = λ (a : ℕ). occurs a m in
    let z = λ (a : ℕ). occurs a r in
    let once : (a : ℕ) → total i j x y z a ≤ 1 = λ a. omega (arith, p.once a) in
    let a = total-Apart i j x y z once (omega (arith, p.no_null)) in
    let v =
      rotate_right-Turned n i j (root_id l) (root_id m) (root_id r) s e (n i).height s' e'
        (height (branch j s' e' l m)) a.i_pos a.j_pos a.ij (root_id-ne l i a.i_pos a.no_i.0)
        (root_id-ne l j a.j_pos a.no_j.0) (root_id-ne m i a.i_pos a.no_i.1)
        (root_id-ne m j a.j_pos a.no_j.1) (root_id-ne r i a.i_pos a.no_i.2)
        (root_id-ne r j a.j_pos a.no_j.2) st.0 st.1.0 in
    let hl = height_of-root n l a.no_null.0 st.1.1 in
    let hm = height_of-root n m a.no_null.1 st.1.2 in
    let hr = height_of-root n r a.no_null.2 st.2 in
    let b1 = higher_bounds (height (branch j s' e' l m)) (height r) 199 p.low in
    let b2 = higher_bounds (height l) (height m) 198 b1.0 in
    let a1 = above_lem (height m) (height r) (omega arith) (omega arith) in
    let k = height (branch i s e m r) in
    let low : k ≤ 200 = joined_bound (height m) (height r) 199 (omega arith) b1.1 in
    let a2 = above_lem (height l) k (omega arith) low in
    record {
      root = v.top;
      stores = (
        v.upper ∙ rw (hl, hm, hr, a1, a2),
        kept n _ i j l a.no_i.0 a.no_j.0 v.others st.1.1,
        (
          v.lower ∙ rw (hm, hr, a1),
          kept n _ i j m a.no_i.1 a.no_j.1 v.others st.1.2,
          kept n _ i j r a.no_i.2 a.no_j.2 v.others st.2,
        ),
      );
      frame = λ b h. let (bi, bj) = not_in_total i j x y z b (omega (arith, h)) in v.others b bi bj;
    }
