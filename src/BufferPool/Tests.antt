-- ===== src/BufferPool/Tests.antt =====
-- The pool of buffer memory at concrete inputs.
use nvidia_vaapi_driver.Prelude.{◌^◌, ◌≡◌, refl, none, some, ◌∷◌, [], arith}
use nvidia_vaapi_driver.BufferPool.{
  allocate_buffer_memory, release_buffer_memory, destroy_buffer_pool,
}
use nvidia_vaapi_driver.BufferPool.Release.{Allocates, allocate-Allocates}
use nvidia_vaapi_driver.BufferPool.Ownership.{
  World, Step, Reach, Owned, live_uses, empty_world, created, released, Reach-Owned,
}
use nvidia_vaapi_driver.BufferPool.Destroy.{Emptied, destroy-Emptied}

-- Two buffers, the first one destroyed again: its block is in the pool.
abbrev start : World
start = empty_world (2 ^ 20)

abbrev one : World
one = created start (some 64) 5000

abbrev two : World
two = created one (some 65) 100

abbrev pooled : World
pooled = released two 1

pooled_run : Reach start pooled
unfolding allocate_buffer_memory
pooled_run =
    Reach.next
      (Reach.next (Reach.next Reach.here (Step.create start (some 64) 5000 refl))
        (Step.create one (some 65) 100 refl))
      (Step.release two 1)

pooled_blocks : pooled.pool.blocks 1 ≡ 64 ∷ []
unfolding allocate_buffer_memory release_buffer_memory
pooled_blocks = refl

Reach-Owned_example : Owned pooled
Reach-Owned_example = Reach-Owned (2 ^ 20) (omega arith) pooled_run

pooled-Owned : Owned pooled
pooled-Owned = Reach-Owned (2 ^ 20) (omega arith) pooled_run

destroy-Emptied_example : Emptied (destroy_buffer_pool pooled.pool) pooled.live
unfolding allocate_buffer_memory release_buffer_memory
destroy-Emptied_example = destroy-Emptied pooled pooled-Owned refl

allocate-Allocates_example :
    Allocates pooled.pool
      (live_uses pooled.live)
      8000
      (allocate_buffer_memory pooled.pool none 8000)
allocate-Allocates_example =
    allocate-Allocates pooled.pool (live_uses pooled.live) none 8000 pooled-Owned.sound tt
