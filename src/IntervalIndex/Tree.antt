-- ===== src/IntervalIndex/Tree.antt =====
-- The tree that the nodes of src/av1-interval-index.c stand for, and what the code does to it.
use nvidia_vaapi_driver.Prelude.{ℕ, ◌+◌, ltb, ◌==◌, if◌then◌else◌}

-- A node's id and interval, and its subtrees.
pub data Tree : Type 0 where
  nil : Tree
  branch : ℕ → ℕ → ℕ → Tree → Tree → Tree

abbrev pub height : Tree → ℕ
height nil = 0
height (branch i s e l r) = 1 + (if ltb (height r) (height l) then height l else height r)

abbrev pub root_id : Tree → ℕ
root_id nil = 0
root_id (branch i s e l r) = i

abbrev pub start_of : Tree → ℕ
start_of nil = 0
start_of (branch i s e l r) = s

-- The sum of a weight over all nodes.
abbrev pub weigh : (ℕ → ℕ → ℕ → ℕ) → Tree → ℕ
weigh f nil = 0
weigh f (branch i s e l r) = f i s e + weigh f l + weigh f r

abbrev pub size : Tree → ℕ
size = weigh (λ i s e. 1)

-- How often an id and an interval occur.
abbrev pub occurs : ℕ → Tree → ℕ
occurs a = weigh (λ i s e. if i == a then 1 else 0)

abbrev pub same_interval : ℕ → ℕ → ℕ → ℕ → ℕ
same_interval x y s e = if x == s then (if y == e then 1 else 0) else 0

abbrev pub holds : ℕ → ℕ → Tree → ℕ
holds x y = weigh (λ i s e. same_interval x y s e)

abbrev pub rotated_left : Tree → Tree
rotated_left (branch i s e l (branch j s' e' m r)) = branch j s' e' (branch i s e l m) r
rotated_left t = t

abbrev pub rotated_right : Tree → Tree
rotated_right (branch i s e (branch j s' e' l m) r) = branch j s' e' l (branch i s e m r)
rotated_right t = t

-- A subtree with the wrong shape for a single rotation.
abbrev pub turned_left : ℕ → Tree → Tree
turned_left start l = if ltb (start_of l) start then rotated_left l else l

abbrev pub turned_right : ℕ → Tree → Tree
turned_right start r = if ltb start (start_of r) then rotated_right r else r

unfoldable pub balanced : ℕ → ℕ → ℕ → ℕ → Tree → Tree → Tree
balanced start i s e l r =
    if ltb (height r + 1) (height l)
    then rotated_right (branch i s e (turned_left start l) r)
    else if ltb (height l + 1) (height r)
    then rotated_left (branch i s e l (turned_right start r))
    else branch i s e l r

unfoldable pub inserted : ℕ → ℕ → ℕ → Tree → Tree
inserted id start end nil = branch id start end nil nil
inserted id start end (branch i s e l r) =
    let left = balanced start i s e (inserted id start end l) r in
    let right = balanced start i s e l (inserted id start end r) in
    if ltb start s then left else right
