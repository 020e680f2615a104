-- ===== src/IntervalIndex/Tests.antt =====
-- src/av1-interval-index.c at concrete inputs.
use nvidia_vaapi_driver.Prelude.{
  ℕ, zero, suc, ◌≡◌, refl, none, some, Bool, false, replicate, length, length-replicate, arith,
  Option, ap, sym, ◌∙◌, ◌==◌, if◌then◌else◌,
}
use nvidia_vaapi_driver.AppendableBuffer.{Memalign}
use nvidia_vaapi_driver.AppendableBuffer.Laws.{IsAllocator}
use nvidia_vaapi_driver.IntervalIndex.{
  Nodes, IntervalIndex, insert, rebalance, rotate_left, interval_index_insert, leaf_node,
}
use nvidia_vaapi_driver.IntervalIndex.Tree.{Tree, nil, branch, inserted}
use nvidia_vaapi_driver.IntervalIndex.Rotations.{Becomes}
use nvidia_vaapi_driver.IntervalIndex.Insertion.{insert-Inserts}
use nvidia_vaapi_driver.IntervalIndex.Models.{Models}
use nvidia_vaapi_driver.IntervalIndex.Index.{Answers, insert-Answers}

abbrev memory : Memalign
memory n = some (replicate n 0)

memory-IsAllocator : IsAllocator memory
memory-IsAllocator n m e =
    let same : replicate n 0 ≡ m = cc in ap (λ l. length l) (sym same) ∙ length-replicate n 0

abbrev blank : Nodes
blank a = record { start = 0; end = 0; left = 0; right = 0; height = 0 }

-- An index with the interval from 10 to 20.
abbrev one : IntervalIndex
one = record {
  storage = record { buf = some (replicate 16 0); size = 16; allocated = 16; failed = false };
  nodes = λ a. leaf_node 10 20;
  max_end = 20;
  root = 1;
  count = 1;
}

abbrev one_tree : Tree
one_tree = branch 1 10 20 nil nil

one-Models : Models one one_tree
one-Models = record {
  rooted_at = refl;
  stores = (refl, tt, tt);
  ordered = omega arith;
  even = (omega arith, omega arith, tt, tt);
  once = λ a. ground arith;
  no_null = refl;
  numbered = λ a h. ground arith;
  counted = refl;
  bounded = omega arith;
  storage = record { block = refl; fits = omega arith; small = omega arith };
  filled = refl;
}

insert-Answers_example :
    (r : Bool × IntervalIndex) × (interval_index_insert memory 26 blank one 3 8 ≡ some r)
    × Answers one one_tree 3 8 r
insert-Answers_example =
    insert-Answers memory memory-IsAllocator 26 (omega arith) blank one one_tree 3 8 one-Models

abbrev with_second : Nodes
with_second a = if a == 2 then leaf_node 3 8 else leaf_node 10 20

insert-Inserts_example :
    (r : ℕ × Nodes) × (insert 2 with_second 1 2 ≡ some r)
    × Becomes with_second r (inserted 2 3 8 one_tree)
insert-Inserts_example =
    insert-Inserts 2 3 8 2 with_second one_tree (omega arith) (refl, tt, tt)
      (record { once = λ a. ground arith; no_null = refl; low = omega arith }) (omega arith)
      (omega arith, omega arith, tt, tt) (omega arith, tt, tt) refl refl (omega arith)

-- Three intervals in ascending order make a double step to the left: the middle one is the root.
abbrev ascending : Nodes
ascending a = elim a [
  | zero ↦ leaf_node 0 0
  | suc b ↦ elim b [
    | zero ↦ record { start = 10; end = 20; left = 0; right = 2; height = 2 }
    | suc c ↦ elim c [ zero ↦ leaf_node 20 30 | suc d ↦ leaf_node 30 40 ]
  ]
]

root_of : Option (ℕ × Nodes) → Option ℕ
root_of none = none
root_of (some r) = some r.0

third_rotates : root_of (insert 26 ascending 1 3) ≡ some 2
unfolding root_of insert rebalance rotate_left
third_rotates = refl
