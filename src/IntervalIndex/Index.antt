-- ===== src/IntervalIndex/Index.antt =====
-- src/av1-interval-index.c: the index as a set of disjoint intervals.
use nvidia_vaapi_driver.Prelude.{
  ℕ, ◌+◌, ◌*◌, ◌^◌, ◌%◌, ◌≤◌, ◌<◌, ◌≡◌, ◌⊎◌, ◌↔◌, inl, inr, refl, ap, ◌∙◌, ltb, leb, arith, Bool,
  true, false, Bool-cases, some, ltb→lt, leb-false→lt,
}
use mathlib.Core.Bool.{false≢true}
use nvidia_vaapi_driver.AppendableBuffer.{AppendableBuffer, Memalign, reserve_buffer}
use nvidia_vaapi_driver.AppendableBuffer.Laws.{
  IsValid, IsAllocator, Reserved, reserve_buffer-Reserved,
}
use nvidia_vaapi_driver.IntervalIndex.{
  Node, Nodes, IntervalIndex, index_capacity, node_size, write, leaf_node, moved_nodes, add_node,
  checked, interval_index_insert, interval_index_reset,
}
use nvidia_vaapi_driver.IntervalIndex.Tree.{
  Tree, nil, height, root_id, holds, same_interval, inserted,
}
use nvidia_vaapi_driver.IntervalIndex.Store.{Stores, Stores-congr}
use nvidia_vaapi_driver.IntervalIndex.Weight.{weigh-inserted}
use nvidia_vaapi_driver.IntervalIndex.Order.{IsFree, IsFree-IsNew}
use nvidia_vaapi_driver.IntervalIndex.Rotations.{IsProper}
use nvidia_vaapi_driver.IntervalIndex.Balance.{height-lt}
use nvidia_vaapi_driver.IntervalIndex.Insertion.{insert-Inserts}
use nvidia_vaapi_driver.IntervalIndex.Models.{
  Models, search-IsFree, grown-Models, grown, add_node_lem,
}

-- Why an interval is not taken.
abbrev pub Refusal : IntervalIndex → IntervalIndex → Tree → ℕ → ℕ → Type 0
Refusal index index' t start end =
    (end ≤ start)
    ⊎ (index.count ≡ index_capacity)
    ⊎ (¬ IsFree start end t)
    ⊎ (index'.storage.failed ≡ true)

-- What nvdIntervalIndexInsert leaves: the new interval beside the others, or the others.
pub record Answers (index : IntervalIndex) (t : Tree) (start end : ℕ) (r : Bool × IntervalIndex)
    : Type 0 where
  pub accepted :
      r.0 ≡ true
      → (start < end)
        × IsFree start end t
        × ((t' : Tree) × Models r.1 t'
            × ((x y : ℕ) → holds x y t' ≡ same_interval x y start end + holds x y t))
  pub rejected : r.0 ≡ false → Models r.1 t × Refusal index r.1 t start end

module _ (memalign : Memalign) (alloc : IsAllocator memalign) (fuel : ℕ) (enough : 26 ≤ fuel)
    (garbage : Nodes) where
  -- The nodes of the index survive the move to a larger block.
  moved-Stores :
      (index : IntervalIndex) (t : Tree) (storage : AppendableBuffer) (v : Node)
      → Models index t
      → Stores (write (moved_nodes index.storage storage garbage index.nodes) (index.count + 1) v) t
  moved-Stores index t storage v m =
      Stores-congr index.nodes _ t
        (λ a h.
          let inside : a ≤ index.count = elim (Bool-cases (ltb index.count a)) [
            | inl out ↦ absurd (omega (arith, m.numbered a (ltb→lt _ _ out)))
            | inr f ↦ ground arith
          ] in
          ground (arith, m.filled))
        m.stores

  written : (added : ℕ) (v : Node) (nodes : Nodes) → write nodes added v added ≡ v
  written added v nodes = ground arith

  add_node-Answers :
      (index : IntervalIndex) (t : Tree) (start end : ℕ)
      → Models index t
      → start < end
      → index.count < index_capacity
      → IsFree start end t
      → (r : Bool × AppendableBuffer)
      → Reserved memalign alloc index.storage ((index.count + 1) * node_size) r
      → (a : Bool × IntervalIndex) × (add_node fuel garbage index start end r ≡ some a)
        × Answers index t start end a
  add_node-Answers index t start end m lt room free (false, storage) res = (
    (false, record index { storage = storage }),
    (unfold add_node in refl),
    record {
      accepted = λ e. cc;
      rejected = λ _. (
        record {
          rooted_at = m.rooted_at;
          stores = m.stores;
          ordered = m.ordered;
          even = m.even;
          once = m.once;
          no_null = m.no_null;
          numbered = m.numbered;
          counted = m.counted;
          bounded = m.bounded;
          storage = res.keeps.valid;
          filled = res.keeps.same_size ∙ m.filled;
        },
        inr (inr (inr (ap (λ (b : AppendableBuffer). b.failed) (res.refused refl)))),
      );
    },
  )
  add_node-Answers index t start end m lt room free (true, storage) res =
      let added = index.count + 1 in
      let same : added % 2 ^ 16 ≡ added = omega arith in
      let n =
        write (moved_nodes index.storage storage garbage index.nodes) added (leaf_node start end) in
      let short : height t < 26 = height-lt t m.even (omega (arith, m.counted, m.bounded)) in
      let proper : IsProper t = record { once = m.once; no_null = m.no_null; low = omega arith } in
      let here : n added ≡ leaf_node start end =
        written added (leaf_node start end)
          (moved_nodes index.storage storage garbage index.nodes) in
      let (c, e, b) =
        insert-Inserts added start end fuel n t (omega arith)
          (moved-Stores index t storage (leaf_node start end) m) proper (omega arith) m.even
          (IsFree-IsNew start end 0 index.max_end t lt m.ordered free) here
          (m.numbered added (omega arith)) (omega arith) in
      let models =
        grown-Models index t start end storage n c m lt room free res.keeps.valid (res.room refl).0
          b in
      (
        (true, grown index storage end c),
        add_node_lem fuel garbage index storage start end added (root_id t) c same m.rooted_at e,
        record {
          accepted = λ _. (
            lt,
            free,
            (
              inserted added start end t,
              models,
              λ x y. weigh-inserted (λ j s e. same_interval x y s e) added start end t,
            ),
          );
          rejected = λ q. cc;
        },
      )

  -- From the answer of the search on.
  checked-Answers :
      (index : IntervalIndex) (t : Tree) (start end : ℕ)
      → Models index t
      → start < end
      → index.count < index_capacity
      → (b : Bool) → ((b ≡ true) ↔ IsFree start end t)
      → (r : Bool × IntervalIndex) × (checked
            (some b)
            (add_node fuel garbage index start end
              (reserve_buffer memalign index.storage ((index.count + 1) * node_size)))
            index
          ≡ some r)
        × Answers index t start end r
  checked-Answers index t start end m lt room true iff =
      add_node-Answers index t start end m lt room (iff.0 refl) _ (
        reserve_buffer-Reserved memalign alloc index.storage ((index.count + 1) * node_size)
          m.storage (omega arith))
  checked-Answers index t start end m lt room false iff = (
    (false, index),
    refl,
    record {
      accepted = λ e. cc;
      rejected = λ _. (m, inr (inr (inl (λ free. false≢true (iff.1 free)))));
    },
  )

  -- nvdIntervalIndexInsert, with fuel for 26 levels, ends on every index. If it answers true, the
  -- interval is not empty and overlaps none of the index, and the index holds it and what it held
  -- before; if it answers false, the index holds what it held, and the interval is empty, overlaps
  -- one, the index is full, or the allocation failed. The tree stays ordered and balanced.
  pub insert-Answers :
      (index : IntervalIndex) (t : Tree) (start end : ℕ)
      → Models index t
      → (r : Bool × IntervalIndex) × (interval_index_insert memalign fuel garbage index start end
          ≡ some r)
        × Answers index t start end r
  unfolding interval_index_insert
  insert-Answers index t start end m = elim (Bool-cases (leb end start)) [
    | inl empty ↦ (
      (false, index),
      rw empty,
      record { accepted = λ e. cc; rejected = λ _. (m, inl (ground arith)) },
    )
    | inr f1 ↦ elim (Bool-cases (leb index_capacity index.count)) [
      | inl full ↦ (
        (false, index),
        rw (f1, full),
        record { accepted = λ e. cc; rejected = λ _. (m, inr (inl (ground (arith, m.bounded)))) },
      )
      | inr f2 ↦
          let lt = leb-false→lt end start f1 in
          let short = height-lt t m.even (omega (arith, m.counted, m.bounded)) in
          let (b, e, iff) = search-IsFree fuel index t start end m (omega arith) lt in
          rw (f1, f2, e)
            (checked-Answers index t start end m lt (leb-false→lt index_capacity index.count f2) b
              iff)
    ]
  ]

-- nvdIntervalIndexReset leaves an empty index in the storage that there is.
pub reset-Models :
    (index : IntervalIndex) → IsValid index.storage → Models (interval_index_reset index) nil
unfolding interval_index_reset
reset-Models index v = record {
  rooted_at = refl;
  stores = tt;
  ordered = omega arith;
  even = tt;
  once = λ a. omega arith;
  no_null = refl;
  numbered = λ a h. refl;
  counted = refl;
  bounded = omega arith;
  storage = record { block = v.block; fits = omega arith; small = v.small };
  filled = refl;
}
