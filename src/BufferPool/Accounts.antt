-- ===== src/BufferPool/Accounts.antt =====
-- src/vabackend.c: what the pool of buffer memory knows of itself, and the lines that take a block
-- out of it.
use nvidia_vaapi_driver.Prelude.{
  ℕ, suc, ◌+◌, ◌-◌, ◌*◌, ◌%◌, ◌^◌, ◌≤◌, ◌<◌, ◌≡◌, ap, sym, ◌∙◌, List, [], ◌∷◌, inl, inr, Bool-cases,
  ◌==◌, if◌then◌else◌, length, arith,
}
use nvidia_vaapi_driver.BufferPool.{
  Pool, class_count, class_size, update, take_first, keep_block, free_block,
}
use nvidia_vaapi_driver.Prelude.Sums.{sum_below, sum_change, count}

-- How many chains of the pool hold the block at `a`, and how often.
abbrev pub pool_uses : Pool → ℕ → ℕ
pool_uses p a = sum_below class_count (λ i. count a (p.blocks i))

-- The bytes of all pooled blocks.
abbrev pub pooled_bytes : Pool → ℕ
pooled_bytes p = sum_below class_count (λ i. p.counts i * class_size i)

abbrev pub single : ℕ → ℕ → ℕ
single block a = if block == a then 1 else 0

-- The pool is consistent, each of its blocks has the size of its class, and `uses` counts the blocks
-- that it has handed out.
pub record IsSound (p : Pool) (uses : ℕ → ℕ) : Type 0 where
  pub counted : (i : ℕ) → i < class_count → p.counts i ≡ length (p.blocks i)
  pub few : (i : ℕ) → i < class_count → p.counts i ≤ 16
  pub summed : p.bytes ≡ pooled_bytes p
  pub bounded : p.bytes ≤ p.max_bytes
  pub small : p.max_bytes < 2 ^ 64
  pub owned : (a : ℕ) → p.heap a ≡ pool_uses p a + uses a
  pub once : (a : ℕ) → p.heap a ≤ 1
  pub sized : (i a : ℕ) → i < class_count → 0 < count a (p.blocks i) → p.sizes a ≡ class_size i

pub IsSound-congr : (p : Pool) (u v : ℕ → ℕ) → ((a : ℕ) → u a ≡ v a) → IsSound p u → IsSound p v
IsSound-congr p u v e s = record {
  counted = s.counted;
  few = s.few;
  summed = s.summed;
  bounded = s.bounded;
  small = s.small;
  owned = λ a. omega (arith, s.owned a, e a);
  once = s.once;
  sized = s.sized;
}

module _ (p : Pool) (c : ℕ) (inside : c < class_count) where
  -- One chain exchanged for another.
  pub pool_uses-update :
      (xs : List ℕ) (a : ℕ)
      → sum_below class_count (λ i. count a (update p.blocks c xs i)) + count a (p.blocks c)
        ≡ pool_uses p a + count a xs
  pool_uses-update xs a =
      let e =
        sum_change class_count c (λ i. count a (p.blocks i)) (λ i. count a (update p.blocks c xs i))
          inside (λ j ne. ground (arith, ne)) in
      let here : count a (update p.blocks c xs c) ≡ count a xs = ground arith in
      omega (arith, e, here)

  pub pooled_bytes-update :
      (n : ℕ)
      → sum_below class_count (λ i. update p.counts c n i * class_size i)
          + p.counts c * class_size c
        ≡ pooled_bytes p + n * class_size c
  pooled_bytes-update n =
      let e =
        sum_change class_count c (λ i. p.counts i * class_size i)
          (λ i. update p.counts c n i * class_size i) inside (λ j ne. ground (arith, ne)) in
      let here : update p.counts c n c * class_size c ≡ n * class_size c = ground arith in
      omega (arith, e, here)

-- A class with another chain, for which as many blocks change hands.
IsSound-rechained :
    (p : Pool) (u v : ℕ → ℕ) (c : ℕ) (xs : List ℕ) (bytes : ℕ)
    → c < class_count
    → length xs ≤ 16
    → bytes + length (p.blocks c) * class_size c ≡ p.bytes + length xs * class_size c
    → bytes ≤ p.max_bytes
    → ((a : ℕ) → v a + count a xs ≡ u a + count a (p.blocks c))
    → ((a : ℕ) → 0 < count a xs → p.sizes a ≡ class_size c)
    → IsSound p u
    → IsSound
        (record p {
          blocks = update p.blocks c xs;
          counts = update p.counts c (length xs);
          bytes = bytes;
        })
        v
IsSound-rechained p u v c xs bytes inside few sum bound uses fitting s =
    let n : p.counts c * class_size c ≡ length (p.blocks c) * class_size c =
      ap (λ (t : ℕ). t * class_size c) (s.counted c inside) in
    record {
      counted = λ i h. ground (arith, s.counted i h);
      few = λ i h. ground (arith, s.few i h);
      summed = omega (arith, s.summed, pooled_bytes-update p c inside (length xs), n);
      bounded = bound;
      small = s.small;
      owned = λ a. omega (arith, s.owned a, pool_uses-update p c inside xs a, uses a);
      once = s.once;
      sized = λ i a h k. elim (Bool-cases (c == i)) [
        | inl e ↦
            let same : c ≡ i = ground arith in
            let k' : 0 < count a xs = rw e at k in fitting a k' ∙ ap class_size same
        | inr e ↦ let k' : 0 < count a (p.blocks i) = rw e at k in s.sized i a h k'
      ];
    }

-- The bytes of one class are among those of the pool.
class_bytes-le :
    (p : Pool) (uses : ℕ → ℕ) (c : ℕ)
    → c < class_count
    → IsSound p uses
    → length (p.blocks c) * class_size c ≤ p.bytes
class_bytes-le p uses c inside s =
    let n : p.counts c * class_size c ≡ length (p.blocks c) * class_size c =
      ap (λ (t : ℕ). t * class_size c) (s.counted c inside) in
    omega (arith, s.summed, pooled_bytes-update p c inside 0, n)

-- The first block of a class goes to its new owner.
pub take_first-IsSound :
    (p : Pool) (uses : ℕ → ℕ) (c block : ℕ) (next : List ℕ)
    → c < class_count
    → p.blocks c ≡ block ∷ next
    → IsSound p uses
    → IsSound (take_first p c (block ∷ next)).1 (λ a. uses a + single block a)
unfolding take_first
take_first-IsSound p uses c block next inside e s =
    let length_e : length (p.blocks c) ≡ suc (length next) = ap (λ l. length l) e in
    let times : length (p.blocks c) * class_size c ≡ suc (length next) * class_size c =
      ap (λ (t : ℕ). t * class_size c) length_e in
    let few = s.few c inside in
    let n : (p.counts c + 2 ^ 32 - 1) % 2 ^ 32 ≡ length next =
      omega (arith, s.counted c inside, length_e) in
    let part = class_bytes-le p uses c inside s in
    let b : (p.bytes + 2 ^ 64 - class_size c) % 2 ^ 64 ≡ p.bytes - class_size c =
      omega (arith, part, times) in
    let count_e = λ (a : ℕ). ap (λ l. count a l) e in
    rw (n, b)
      (IsSound-rechained p uses (λ a. uses a + single block a) c next (p.bytes - class_size c)
        inside (omega (arith, s.counted c inside, length_e)) (omega (arith, part, times))
        (omega (arith)) (λ a. omega (arith, count_e a))
        (λ a k. s.sized c a inside (ground (arith, count_e a))) s)

-- A block that was handed out comes back to its class.
pub keep_block-IsSound :
    (p : Pool) (uses : ℕ → ℕ) (c block capacity : ℕ)
    → c < class_count
    → capacity ≡ class_size c
    → p.sizes block ≡ capacity
    → p.counts c < 16
    → p.bytes + capacity ≤ p.max_bytes
    → IsSound p (λ a. uses a + single block a)
    → IsSound (keep_block p block capacity c) uses
keep_block-IsSound p uses c block capacity inside e size few room s =
    let n : (p.counts c + 1) % 2 ^ 32 ≡ suc (length (p.blocks c)) =
      omega (arith, s.counted c inside) in
    let b : (p.bytes + capacity) % 2 ^ 64 ≡ p.bytes + capacity = omega arith in
    rw (n, b)
      (IsSound-rechained p (λ a. uses a + single block a) uses c (block ∷ p.blocks c)
        (p.bytes + capacity) inside (omega (arith, s.counted c inside)) (omega arith) room
        (λ a. omega arith)
        (λ a k. elim (Bool-cases (block == a)) [
          | inl same ↦ let same' : block ≡ a = ground arith in ap p.sizes (sym same') ∙ size ∙ e
          | inr other ↦
              let k' : 0 < 0 + count a (p.blocks c) = rw other at k in
              s.sized c a inside (omega arith)
        ])
        s)

pub free_block-IsSound :
    (p : Pool) (uses : ℕ → ℕ) (block : ℕ)
    → IsSound p (λ a. uses a + single block a)
    → IsSound (free_block p block) uses
free_block-IsSound p uses block s = record {
  counted = s.counted;
  few = s.few;
  summed = s.summed;
  bounded = s.bounded;
  small = s.small;
  owned = λ a. ground (arith, s.owned a, s.owned block);
  once = λ a. ground (arith, s.once a, s.once block);
  sized = s.sized;
}

-- A pooled block is counted by the allocator.
pooled_heap :
    (p : Pool) (uses : ℕ → ℕ) (i a : ℕ)
    → i < class_count
    → IsSound p uses
    → count a (p.blocks i) ≤ p.heap a
pooled_heap p uses i a h s = omega (arith, s.owned a, pool_uses-update p i h [] a)

-- A block that the allocator has just handed out.
pub fresh_block-IsSound :
    (p : Pool) (uses : ℕ → ℕ) (block capacity : ℕ)
    → p.heap block ≡ 0
    → IsSound p uses
    → IsSound
        (record p {
          heap = update p.heap block (p.heap block + 1);
          sizes = update p.sizes block capacity;
        })
        (λ a. uses a + single block a)
fresh_block-IsSound p uses block capacity fresh s = record {
  counted = s.counted;
  few = s.few;
  summed = s.summed;
  bounded = s.bounded;
  small = s.small;
  owned = λ a. ground (arith, s.owned a);
  once = λ a. ground (arith, s.once a);
  sized = λ i a h k. elim (Bool-cases (block == a)) [
    | inl e ↦
        let same : block ≡ a = ground arith in
        let heap : p.heap block ≡ p.heap a = ap p.heap same in
        absurd (omega (arith, pooled_heap p uses i a h s, heap))
    | inr e ↦ rw e (s.sized i a h k)
  ];
}
