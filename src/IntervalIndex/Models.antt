-- ===== src/IntervalIndex/Models.antt =====
-- src/av1-interval-index.c: the tree that an index holds, the search in it, and one more node.
use nvidia_vaapi_driver.Prelude.{
  ℕ, zero, suc, ◌+◌, ◌*◌, ◌^◌, ◌%◌, ◌≤◌, ◌<◌, ◌≡◌, ◌≢◌, ◌↔◌, inl, inr, refl, ap, ltb, leb, ◌==◌,
  if◌then◌else◌, arith, Bool, true, false, Bool-cases, some,
}
use nvidia_vaapi_driver.AppendableBuffer.{AppendableBuffer}
use nvidia_vaapi_driver.AppendableBuffer.Laws.{IsValid}
use nvidia_vaapi_driver.IntervalIndex.{
  Node, Nodes, IntervalIndex, index_capacity, node_size, write, insert, leaf_node, search_free,
  moved_nodes, add_node,
}
use nvidia_vaapi_driver.IntervalIndex.Tree.{
  Tree, nil, branch, height, root_id, occurs, size, inserted,
}
use nvidia_vaapi_driver.IntervalIndex.Store.{Stores}
use nvidia_vaapi_driver.IntervalIndex.Weight.{weigh-inserted}
use nvidia_vaapi_driver.IntervalIndex.Order.{
  IsOrdered, IsFree, is_free, is_free_iff, IsFree-above, IsFree-IsNew, inserted-IsOrdered,
  IsOrdered-mono,
}
use nvidia_vaapi_driver.IntervalIndex.Rotations.{Becomes}
use nvidia_vaapi_driver.IntervalIndex.Balance.{IsBalanced, inserted-Grows}
use nvidia_vaapi_driver.IntervalIndex.Insertion.{below_height, root_pos}

-- The index holds the intervals of the tree `t`.
pub record Models (index : IntervalIndex) (t : Tree) : Type 0 where
  pub rooted_at : index.root ≡ root_id t
  pub stores : Stores index.nodes t
  pub ordered : IsOrdered 0 t index.max_end
  pub even : IsBalanced t
  pub once : (a : ℕ) → occurs a t ≤ 1
  pub no_null : occurs 0 t ≡ 0
  pub numbered : (a : ℕ) → index.count < a → occurs a t ≡ 0
  pub counted : index.count ≡ size t
  pub bounded : index.count ≤ index_capacity
  pub storage : IsValid index.storage
  pub filled : index.storage.size ≡ index.count * node_size

search_step :
    (f : ℕ) (n : Nodes) (i start end s e a b : ℕ) (left right : Bool)
    → 0 < i
    → (n i).start ≡ s
    → (n i).end ≡ e
    → (n i).left ≡ a
    → (n i).right ≡ b
    → search_free f n a start end ≡ some left
    → search_free f n b start end ≡ some right
    → search_free (suc f) n i start end
      ≡ some (if leb end s then left else if leb e start then right else false)
unfolding search_free
search_step f n i start end s e a b left right pos p q u v x y = ground arith

-- The loop on the nodes of a tree, with fuel for one level more than it has.
search_free_lem :
    (f : ℕ) (n : Nodes) (start end : ℕ) (t : Tree)
    → height t < f
    → Stores n t
    → occurs 0 t ≡ 0
    → search_free f n (root_id t) start end ≡ some (is_free start end t)
unfolding is_free
search_free_lem zero n start end t h st z = elim h [ ]
search_free_lem (suc f) n start end nil h st z = (unfold search_free in refl)
search_free_lem (suc f) n start end (branch i s e l r) h st z =
    let (hl, hr) = below_height (height l) (height r) f h in
    search_step f n i start end s e (root_id l) (root_id r) (is_free start end l)
      (is_free start end r) (root_pos i s e l r z) (ap (λ (v : Node). v.start) st.0)
      (ap (λ (v : Node). v.end) st.0) (ap (λ (v : Node). v.left) st.0)
      (ap (λ (v : Node). v.right) st.0) (search_free_lem f n start end l hl st.1 (omega (arith, z)))
      (search_free_lem f n start end r hr st.2 (omega (arith, z)))

-- The answer of the search, which is left out behind the last interval.
pub search-IsFree :
    (f : ℕ) (index : IntervalIndex) (t : Tree) (start end : ℕ)
    → Models index t
    → height t < f
    → start < end
    → (b : Bool) × ((if ltb start index.max_end
          then search_free f index.nodes index.root start end
          else some true)
        ≡ some b)
      × ((b ≡ true) ↔ IsFree start end t)
search-IsFree f index t start end m h lt = elim (Bool-cases (ltb start index.max_end)) [
  | inl inside ↦ (
    is_free start end t,
    rw (inside, m.rooted_at) (search_free_lem f index.nodes start end t h m.stores m.no_null),
    is_free_iff start end 0 index.max_end t lt m.ordered,
  )
  | inr behind ↦ (
    true,
    rw behind,
    (λ _. IsFree-above start end 0 index.max_end t (ground arith) m.ordered, λ _. refl),
  )
]

later_bounds : (a b : ℕ) → (a ≤ (if ltb a b then b else a)) × (b ≤ (if ltb a b then b else a))
later_bounds a b = ground arith

-- The ids of a tree with one more node.
new_once : (added n a : ℕ) → n ≤ 1 → (added ≡ a → n ≡ 0) → (if added == a then 1 else 0) + n ≤ 1
new_once added n a h new = ground arith

new_other : (added n a : ℕ) → n ≡ 0 → added ≢ a → (if added == a then 1 else 0) + n ≡ 0
new_other added n a h ne = ground arith

-- The index with one more node, wherever the rotations have put it.
abbrev pub grown : IntervalIndex → AppendableBuffer → ℕ → ℕ × Nodes → IntervalIndex
grown index storage end c = record index {
  storage = record storage { size = (index.count + 1) * node_size };
  nodes = c.1;
  max_end = if ltb index.max_end end then end else index.max_end;
  root = c.0;
  count = index.count + 1;
}

pub grown-Models :
    (index : IntervalIndex) (t : Tree) (start end : ℕ) (storage : AppendableBuffer) (n : Nodes)
    (c : ℕ × Nodes)
    → Models index t
    → start < end
    → index.count < index_capacity
    → IsFree start end t
    → IsValid storage
    → (index.count + 1) * node_size ≤ storage.allocated
    → Becomes n c (inserted (index.count + 1) start end t)
    → Models (grown index storage end c) (inserted (index.count + 1) start end t)
grown-Models index t start end storage n c m lt room free v fits b =
    let added = index.count + 1 in
    let o = λ (a : ℕ). weigh-inserted (λ j x y. if j == a then 1 else 0) added start end t in
    let (late, last) = later_bounds index.max_end end in
    let fresh = IsFree-IsNew start end 0 index.max_end t lt m.ordered free in
    let new = m.numbered added (omega arith) in
    record {
      rooted_at = b.root;
      stores = b.stores;
      ordered =
          inserted-IsOrdered added start end 0 _ t (omega arith) lt last free
            (IsOrdered-mono 0 index.max_end _ t late m.ordered);
      even = (inserted-Grows added start end t fresh m.even).even;
      once = λ a. omega (
        arith,
        o a,
        new_once added (occurs a t) a (m.once a)
            (λ q. omega (arith, new, ap (λ (b : ℕ). occurs b t) q)),
      );
      no_null = omega (arith, o 0, new_other added (occurs 0 t) 0 m.no_null (λ q. omega arith));
      numbered = λ a h. omega (
        arith,
        o a,
        new_other added (occurs a t) a (m.numbered a (omega arith)) (λ q. omega arith),
      );
      counted = omega (arith, weigh-inserted (λ j x y. 1) added start end t, m.counted);
      bounded = omega arith;
      storage = record { block = v.block; fits = fits; small = v.small };
      filled = refl;
    }

pub add_node_lem :
    (fuel : ℕ) (garbage : Nodes) (index : IntervalIndex) (storage : AppendableBuffer)
    (start end added root : ℕ) (c : ℕ × Nodes)
    → (index.count + 1) % 2 ^ 16 ≡ added
    → index.root ≡ root
    → insert fuel
        (write (moved_nodes index.storage storage garbage index.nodes) added (leaf_node start end))
        root
        added
      ≡ some c
    → add_node fuel garbage index start end (true, storage)
      ≡ some (true, record (grown index storage end c) { count = added })
unfolding add_node
add_node_lem fuel garbage index storage start end added root c p q e = rw (p, q, e)
