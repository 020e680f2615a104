-- ===== src/BufferPool/Destroy.antt =====
-- src/vabackend.c: destroyBufferPool.
use nvidia_vaapi_driver.Prelude.{
  ℕ, zero, suc, ◌+◌, ◌-◌, ◌≤◌, ◌<◌, ◌≡◌, refl, List, [], ◌∷◌, Bool, true, not, ap, arith, ◌∙◌,
  if◌then◌else◌,
}
use native.Mathlib.Decide.{ℕ_discrete}
use nvidia_vaapi_driver.BufferPool.{
  BufferMemory, Pool, class_count, free_block, free_chain, free_classes, destroy_buffer_pool,
  update,
}
use nvidia_vaapi_driver.Prelude.Sums.{sum_below, count}
use nvidia_vaapi_driver.BufferPool.Accounts.{pool_uses}
use nvidia_vaapi_driver.BufferPool.Ownership.{World, Owned, live_uses}

free_chain_lem :
    (xs : List ℕ) (p : Pool)
    → ((free_chain xs p).blocks ≡ p.blocks)
      × ((free_chain xs p).counts ≡ p.counts)
      × ((a : ℕ) → (free_chain xs p).heap a ≡ p.heap a - count a xs)
unfolding free_chain
free_chain_lem [] p = (refl, refl, λ a. omega arith)
free_chain_lem (x ∷ xs) p =
    let (b, c, h) = free_chain_lem xs (free_block p x) in (b, c, λ a. ground (arith, h a))

sum_from : ℕ → ℕ → (ℕ → ℕ) → ℕ
sum_from zero i f = 0
sum_from (suc n) i f = f i + sum_from n (i + 1) f

sum_from_congr :
    (n i : ℕ) (f g : ℕ → ℕ) → ((j : ℕ) → i ≤ j → f j ≡ g j) → sum_from n i f ≡ sum_from n i g
unfolding sum_from
sum_from_congr zero i f g h = refl
sum_from_congr (suc n) i f g h =
    omega (arith, h i (omega arith), sum_from_congr n (i + 1) f g (λ j k. h j (omega arith)))

-- The rounds from class `i` on empty its chain and those behind it.
free_classes_lem :
    (n i : ℕ) (p : Pool)
    → ((j : ℕ)
        → i ≤ j
        → j < i + n
        → ((free_classes n i p).blocks j ≡ []) × ((free_classes n i p).counts j ≡ 0))
      × ((j : ℕ)
          → j < i
          → ((free_classes n i p).blocks j ≡ p.blocks j)
            × ((free_classes n i p).counts j ≡ p.counts j))
      × ((a : ℕ)
          → (free_classes n i p).heap a ≡ p.heap a - sum_from n i (λ j. count a (p.blocks j)))
unfolding free_classes sum_from
free_classes_lem zero i p = (λ j h k. absurd (omega arith), λ j h. (refl, refl), λ a. omega arith)
free_classes_lem (suc n) i p =
    let (b, c, h) = free_chain_lem (p.blocks i) p in
    let q = free_chain (p.blocks i) p in
    let q' = record q { blocks = update q.blocks i []; counts = update q.counts i 0 } in
    let (behind, before, heap) = free_classes_lem n (i + 1) q' in
    let same = λ (j : ℕ). ap (λ (f : ℕ → List ℕ). f j) b in
    let same_count = λ (j : ℕ). ap (λ (f : ℕ → ℕ). f j) c in
    (
      λ j lo hi. elim (ℕ_discrete j i) [
        | yes e ↦ let (x, y) = before j (omega arith) in (x ∙ ground arith, y ∙ ground arith)
        | no ne ↦ behind j (omega arith) (omega arith)
      ],
      λ j lt.
          let (x, y) = before j (omega arith) in
          (x ∙ ground (arith, same j), y ∙ ground (arith, same_count j)),
      λ a.
          let rest =
            sum_from_congr n (i + 1) (λ j. count a (q'.blocks j)) (λ j. count a (p.blocks j))
              (λ j k. ap (count a) (ground (arith, same j))) in
          omega (arith, heap a, h a, rest),
    )

-- What destroyBufferPool leaves: no chain, no count, and at the allocator only the buffers' blocks.
pub record Emptied (p : Pool) (live : List BufferMemory) : Type 0 where
  pub no_bytes : p.bytes ≡ 0
  pub no_blocks : (i : ℕ) → i < class_count → (p.blocks i ≡ []) × (p.counts i ≡ 0)
  pub freed : (a : ℕ) → p.heap a ≡ live_uses live a

running : (b : Bool) (p q : Pool) → b ≡ true → (if not b then p else q) ≡ q
running b p q e = ground arith

-- destroyBufferPool, where the mutex of the pool is there, gives every pooled block back to the
-- allocator and no other: what the allocator still counts is the memory of the buffers.
pub destroy-Emptied :
    (w : World)
    → Owned w
    → w.pool.mutex_initialized ≡ true
    → Emptied (destroy_buffer_pool w.pool) w.live
unfolding destroy_buffer_pool
destroy-Emptied w o e =
    let (behind, before, heap) = free_classes_lem class_count 0 w.pool in
    rw (running w.pool.mutex_initialized w.pool _ e) (record {
      no_bytes = refl;
      no_blocks = λ i h. behind i (omega arith) (omega arith);
      freed = λ a.
          let sums : pool_uses w.pool a ≡ sum_from class_count 0 (λ j. count a (w.pool.blocks j)) =
            (unfold sum_below sum_from in omega arith) in
          omega (arith, heap a, o.sound.owned a, sums);
    })
