-- ===== src/IntervalIndex.antt =====
-- src/av1-interval-index.c: disjoint intervals in a balanced tree, its nodes in one buffer.
-- `nodes` is the storage read as an array of nodes by their ids, from 1 on; 0 is no node. The bytes
-- of `storage.buf` themselves are not looked at: a move to a larger block keeps the nodes inside
-- the first `storage.size` bytes, the others are what the new block holds (`garbage`).
-- Recursion and the search loop run on fuel; `none` is a run that the fuel did not last.
pub mod Tree
pub mod Order
pub mod Weight
pub mod Balance
pub mod Store
pub mod Rotations
pub mod Rebalance
pub mod Insertion
pub mod Models
pub mod Index
mod Tests
use nvidia_vaapi_driver.Prelude.{
  ℕ, zero, suc, ◌+◌, ◌*◌, ◌%◌, ◌^◌, Option, none, some, Bool, true, false, ◌||◌, not, ltb, leb,
  ◌==◌, if◌then◌else◌,
}
use nvidia_vaapi_driver.AppendableBuffer.{
  AppendableBuffer, Memalign, reserve_buffer, free_appendable_buffer,
}

-- `NVDIntervalNode`
pub record Node : Type 0 where
  pub start : ℕ
  pub end : ℕ
  pub left : ℕ
  pub right : ℕ
  pub height : ℕ

abbrev pub Nodes : Type 0
Nodes = ℕ → Node

-- `NVDIntervalIndex`
pub record IntervalIndex : Type 0 where
  pub storage : AppendableBuffer
  pub nodes : Nodes
  pub max_end : ℕ
  pub root : ℕ
  pub count : ℕ

abbrev pub index_capacity : ℕ
index_capacity = 4096

-- `sizeof(NVDIntervalNode)`
abbrev pub node_size : ℕ
node_size = 16

abbrev pub write : Nodes → ℕ → Node → Nodes
write nodes id n a = if id == a then n else nodes a

abbrev pub set_left : Nodes → ℕ → ℕ → Nodes
set_left nodes id child = write nodes id (record (nodes id) { left = child })

abbrev pub set_right : Nodes → ℕ → ℕ → Nodes
set_right nodes id child = write nodes id (record (nodes id) { right = child })

abbrev pub height_of : Nodes → ℕ → ℕ
height_of nodes id = if id == 0 then 0 else (nodes id).height

-- `1 + (l > r ? l : r)`, kept in eight bits.
abbrev pub above : ℕ → ℕ → ℕ
above l r = (1 + (if ltb r l then l else r)) % 2 ^ 8

abbrev pub update_height : Nodes → ℕ → Nodes
update_height nodes id =
    let n = nodes id in
    write nodes id (record n { height = above (height_of nodes n.left) (height_of nodes n.right) })

pub rotate_left : Nodes → ℕ → ℕ × Nodes
rotate_left nodes root =
    let next = (nodes root).right in
    let nodes1 = set_right nodes root (nodes next).left in
    let nodes2 = set_left nodes1 next root in
    let nodes3 = update_height nodes2 root in (next, update_height nodes3 next)

pub rotate_right : Nodes → ℕ → ℕ × Nodes
rotate_right nodes root =
    let next = (nodes root).left in
    let nodes1 = set_left nodes root (nodes next).right in
    let nodes2 = set_right nodes1 next root in
    let nodes3 = update_height nodes2 root in (next, update_height nodes3 next)

abbrev pub put_left : ℕ → ℕ × Nodes → Nodes
put_left root (child, nodes) = set_left nodes root child

abbrev pub put_right : ℕ → ℕ × Nodes → Nodes
put_right root (child, nodes) = set_right nodes root child

-- The lines from `balance` on.
pub rebalance : Nodes → ℕ → ℕ → ℕ × Nodes
rebalance nodes root start =
    let l = (nodes root).left in
    let r = (nodes root).right in
    if ltb (height_of nodes r + 1) (height_of nodes l)
    then rotate_right
        (if ltb (nodes l).start start then put_left root (rotate_left nodes l) else nodes) root
    else if ltb (height_of nodes l + 1) (height_of nodes r)
    then rotate_left
        (if ltb start (nodes r).start then put_right root (rotate_right nodes r) else nodes) root
    else (root, nodes)

abbrev pub finish_left : ℕ → ℕ → Option (ℕ × Nodes) → Option (ℕ × Nodes)
finish_left root start none = none
finish_left root start (some r) = some (rebalance (update_height (put_left root r) root) root start)

abbrev pub finish_right : ℕ → ℕ → Option (ℕ × Nodes) → Option (ℕ × Nodes)
finish_right root start none = none
finish_right root start (some r) =
    some (rebalance (update_height (put_right root r) root) root start)

pub insert : ℕ → Nodes → ℕ → ℕ → Option (ℕ × Nodes)
insert zero nodes root added = none
insert (suc fuel) nodes root added =
    let n = nodes root in
    let start = (nodes added).start in
    let left = finish_left root start (insert fuel nodes n.left added) in
    let right = finish_right root start (insert fuel nodes n.right added) in
    if root == 0 then some (added, nodes) else if ltb start n.start then left else right

-- The search loop: whether no interval on the way from `current` overlaps.
pub search_free : ℕ → Nodes → ℕ → ℕ → ℕ → Option Bool
search_free zero nodes current start end = none
search_free (suc fuel) nodes current start end =
    let n = nodes current in
    let left = search_free fuel nodes n.left start end in
    let right = search_free fuel nodes n.right start end in
    if current == 0
    then some true
    else if leb end n.start
    then left
    else if leb n.end start
    then right
    else some false

-- What a successful reserveBuffer leaves of the nodes.
abbrev pub moved_nodes : AppendableBuffer → AppendableBuffer → Nodes → Nodes → Nodes
moved_nodes old new garbage nodes id =
    if new.allocated == old.allocated || leb (id * node_size) old.size then nodes id else garbage id

-- The lines behind `added`.
abbrev pub rooted : IntervalIndex → ℕ → ℕ → Option (ℕ × Nodes) → Option (Bool × IntervalIndex)
rooted index added end none = none
rooted index added end (some (root, nodes)) = some (
  true,
  record index {
    nodes = nodes;
    max_end = if ltb index.max_end end then end else index.max_end;
    root = root;
    count = added;
  },
)

abbrev pub leaf_node : ℕ → ℕ → Node
leaf_node start end = record { start = start; end = end; left = 0; right = 0; height = 1 }

-- From the result of reserveBuffer on.
pub add_node :
    ℕ → Nodes → IntervalIndex → ℕ → ℕ → Bool × AppendableBuffer → Option (Bool × IntervalIndex)
add_node fuel garbage index start end (false, storage) =
    some (false, record index { storage = storage })
add_node fuel garbage index start end (true, storage) =
    let added = (index.count + 1) % 2 ^ 16 in
    let nodes =
      write (moved_nodes index.storage storage garbage index.nodes) added (leaf_node start end) in
    rooted (record index { storage = record storage { size = (index.count + 1) * node_size } })
      added end (insert fuel nodes index.root added)

abbrev pub checked :
    Option Bool → Option (Bool × IntervalIndex) → IntervalIndex → Option (Bool × IntervalIndex)
checked none added index = none
checked (some true) added index = added
checked (some false) added index = some (false, index)

module _ (memalign : Memalign) where
  pub interval_index_insert : ℕ → Nodes → IntervalIndex → ℕ → ℕ → Option (Bool × IntervalIndex)
  interval_index_insert fuel garbage index start end =
      let found =
        if ltb start index.max_end
        then search_free fuel index.nodes index.root start end
        else some true in
      if leb end start || leb index_capacity index.count
      then some (false, index)
      else checked found
          (add_node fuel garbage index start end
            (reserve_buffer memalign index.storage ((index.count + 1) * node_size)))
          index

pub interval_index_reset : IntervalIndex → IntervalIndex
interval_index_reset index = record index {
  root = 0;
  count = 0;
  max_end = 0;
  storage = record (index.storage) { size = 0; failed = false };
}

pub interval_index_destroy : IntervalIndex → IntervalIndex
interval_index_destroy index =
    interval_index_reset (record index { storage = free_appendable_buffer index.storage })
