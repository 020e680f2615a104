-- ===== src/IntervalIndex/Store.antt =====
-- src/av1-interval-index.c: the nodes of a tree in the array, and one rotation of them.
use nvidia_vaapi_driver.Prelude.{ℕ, ◌<◌, ◌≡◌, ◌≢◌, refl, ◌∙◌, arith}
use nvidia_vaapi_driver.IntervalIndex.{Node, Nodes, height_of, rotate_left, rotate_right, above}
use nvidia_vaapi_driver.IntervalIndex.Tree.{Tree, nil, branch, height, root_id, occurs}

abbrev pub node : ℕ → ℕ → ℕ → ℕ → ℕ → Node
node s e l r h = record { start = s; end = e; left = l; right = r; height = h }

-- The array holds the tree.
abbrev pub Stores : Nodes → Tree → Type 0
Stores nodes nil = Unit {0}
Stores nodes (branch i s e l r) =
    (nodes i ≡ node s e (root_id l) (root_id r) (height (branch i s e l r)))
    × Stores nodes l
    × Stores nodes r

pub Stores-congr :
    (n m : Nodes) (t : Tree) → ((a : ℕ) → 0 < occurs a t → m a ≡ n a) → Stores n t → Stores m t
Stores-congr n m nil same h = tt
Stores-congr n m (branch i s e l r) same h = (
  same i (ground arith) ∙ h.0,
  Stores-congr n m l (λ a k. same a (ground arith)) h.1,
  Stores-congr n m r (λ a k. same a (ground arith)) h.2,
)

pub height_of-root :
    (n : Nodes) (t : Tree) → occurs 0 t ≡ 0 → Stores n t → height_of n (root_id t) ≡ height t
height_of-root n nil z h = refl
height_of-root n (branch i s e l r) z h = let pos : i ≢ 0 = λ q. ground arith in ground (arith, h.0)

-- A root is no node that its tree does not hold.
pub root_id-ne : (t : Tree) (a : ℕ) → 0 < a → occurs a t ≡ 0 → root_id t ≢ a
root_id-ne nil a pos z = λ q. omega arith
root_id-ne (branch i s e l r) a pos z = λ q. ground arith

-- What a rotation of `i` with its child `j` leaves: `j` on top, the height of `i` and that of `j`
-- from their new children.
pub record Turned (nodes : Nodes) (i j : ℕ) (vi vj : Node) (r : ℕ × Nodes) : Type 0 where
  pub top : r.0 ≡ j
  pub lower : r.1 i ≡ vi
  pub upper : r.1 j ≡ vj
  pub others : (a : ℕ) → a ≢ i → a ≢ j → r.1 a ≡ nodes a

module _ (nodes : Nodes) (i j x y z s e h s' e' h' : ℕ) (i_pos : 0 < i) (j_pos : 0 < j) (ij : i ≢ j)
    (xi : x ≢ i) (xj : x ≢ j) (yi : y ≢ i) (yj : y ≢ j) (zi : z ≢ i) (zj : z ≢ j) where
  pub rotate_left-Turned :
      nodes i ≡ node s e x j h
      → nodes j ≡ node s' e' y z h'
      → let k = above (height_of nodes x) (height_of nodes y) in
        Turned nodes i j
          (node s e x y k)
          (node s' e' i z (above k (height_of nodes z)))
          (rotate_left nodes i)
  unfolding rotate_left
  rotate_left-Turned p q = record {
    top = ground arith;
    lower = ground arith;
    upper = ground arith;
    others = λ a ai aj. ground arith;
  }

  pub rotate_right-Turned :
      nodes i ≡ node s e j z h
      → nodes j ≡ node s' e' x y h'
      → let k = above (height_of nodes y) (height_of nodes z) in
        Turned nodes i j
          (node s e y z k)
          (node s' e' x i (above (height_of nodes x) k))
          (rotate_right nodes i)
  unfolding rotate_right
  rotate_right-Turned p q = record {
    top = ground arith;
    lower = ground arith;
    upper = ground arith;
    others = λ a ai aj. ground arith;
  }
