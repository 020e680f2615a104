-- ===== src/BufferPool/Ownership.antt =====
-- src/vabackend.c: all the buffers of a driver and its pool, in any order of calls.
use nvidia_vaapi_driver.Prelude.{
  ℕ, zero, suc, ◌+◌, ◌<◌, ◌≡◌, refl, ap, ◌∙◌, Option, List, [], ◌∷◌, true, ◌^◌, get_elem?, arith,
  ◌*◌, none, some,
}
use nvidia_vaapi_driver.BufferPool.{
  BufferMemory, Pool, class_count, class_size, allocate_buffer_memory, release_buffer_memory,
}
use nvidia_vaapi_driver.Prelude.Sums.{sum_below}
use nvidia_vaapi_driver.BufferPool.Accounts.{IsSound, IsSound-congr}
use nvidia_vaapi_driver.BufferPool.Release.{
  held, held_by, HasSize, IsBlock, All-IsBlock, IsFresh, allocate-Allocates, release-Releases,
}

-- A driver, as far as its buffers go: the pool and the memory of each buffer that exists.
pub record World : Type 0 where
  pub pool : Pool
  pub live : List BufferMemory

abbrev pub live_uses : List BufferMemory → ℕ → ℕ
live_uses [] a = 0
live_uses (b ∷ bs) a = held b.ptr a + live_uses bs a

abbrev pub remove_at : List BufferMemory → ℕ → List BufferMemory
remove_at [] k = []
remove_at (b ∷ bs) zero = bs
remove_at (b ∷ bs) (suc k) = b ∷ remove_at bs k

abbrev pub created : World → Option ℕ → ℕ → World
created w fresh size =
    let (done, b, p) = allocate_buffer_memory w.pool fresh size in
    record { pool = p; live = b ∷ w.live }

abbrev pub released : World → ℕ → World
released w k = record {
  pool = (release_buffer_memory w.pool (get_elem? w.live k)).1;
  live = remove_at w.live k;
}

-- A buffer is created, with any block that the allocator may return, or destroyed.
pub data Step : World → World → Type 0 where
  create :
      (w : World) (fresh : Option ℕ) (size : ℕ)
      → IsFresh w.pool fresh
      → Step w (created w fresh size)
  release : (w : World) (k : ℕ) → Step w (released w k)

pub data Reach (s : World) : World → Type 0 where
  here : Reach s s
  next : {t u : World} → Reach s t → Step t u → Reach s u

abbrev pub All-Blocks : Pool → List BufferMemory → Type 0
All-Blocks p [] = Unit {0}
All-Blocks p (b ∷ bs) = IsBlock p b × All-Blocks p bs

-- Every block that the allocator counts is held once, by the pool or by one buffer, and has the size
-- that its holder takes it for.
pub record Owned (w : World) : Type 0 where
  pub sound : IsSound w.pool (live_uses w.live)
  pub blocks : All-Blocks w.pool w.live

removed_uses :
    (bs : List BufferMemory) (k a : ℕ)
    → live_uses bs a ≡ live_uses (remove_at bs k) a + held_by (get_elem? bs k) a
removed_uses [] k a = refl
removed_uses (b ∷ bs) zero a = omega arith
removed_uses (b ∷ bs) (suc k) a = omega (arith, removed_uses bs k a)

All-Blocks-remove :
    (p : Pool) (bs : List BufferMemory) (k : ℕ) → All-Blocks p bs → All-Blocks p (remove_at bs k)
All-Blocks-remove p [] k h = tt
All-Blocks-remove p (b ∷ bs) zero h = h.1
All-Blocks-remove p (b ∷ bs) (suc k) h = (h.0, All-Blocks-remove p bs k h.1)

All-Blocks-get :
    (p : Pool) (bs : List BufferMemory) (k : ℕ) → All-Blocks p bs → All-IsBlock p (get_elem? bs k)
All-Blocks-get p [] k h = tt
All-Blocks-get p (b ∷ bs) zero h = h.0
All-Blocks-get p (b ∷ bs) (suc k) h = All-Blocks-get p bs k h.1

HasSize-same :
    (p q : Pool) (ptr : Option ℕ) (capacity : ℕ)
    → ((a : ℕ) → 0 < held ptr a → q.sizes a ≡ p.sizes a)
    → HasSize p ptr capacity
    → HasSize q ptr capacity
HasSize-same p q none capacity same h = tt
HasSize-same p q (some block) capacity same h = same block (ground arith) ∙ h

-- Buffers keep their sizes where the sizes of the blocks in use stay.
All-Blocks-same :
    (p q : Pool) (bs : List BufferMemory)
    → ((a : ℕ) → 0 < live_uses bs a → q.sizes a ≡ p.sizes a)
    → All-Blocks p bs
    → All-Blocks q bs
All-Blocks-same p q [] same h = tt
All-Blocks-same p q (b ∷ bs) same (h, t) = (
  record {
    class = h.class;
    size = HasSize-same p q b.ptr b.capacity (λ a k. same a (omega arith)) h.size;
  },
  All-Blocks-same p q bs (λ a k. same a (omega arith)) t,
)

Step-Owned : {w v : World} → Step w v → Owned w → Owned v
Step-Owned (create w fresh size f) o =
    let a = allocate-Allocates w.pool (live_uses w.live) fresh size o.sound f in
    let q = (allocate_buffer_memory w.pool fresh size).2 in
    record {
      sound = IsSound-congr _ _ _ (λ x. omega arith) a.sound;
      blocks = (
        a.block,
        All-Blocks-same w.pool q w.live (λ x h. a.others x (omega (arith, o.sound.owned x)))
            o.blocks,
      );
    }
Step-Owned (release w k) o =
    let s =
      IsSound-congr w.pool (live_uses w.live)
        (λ a. live_uses (remove_at w.live k) a + held_by (get_elem? w.live k) a)
        (λ a. removed_uses w.live k a) o.sound in
    let r =
      release-Releases w.pool (live_uses (remove_at w.live k)) (get_elem? w.live k)
        (All-Blocks-get w.pool w.live k o.blocks) s in
    let q = (release_buffer_memory w.pool (get_elem? w.live k)).1 in
    record {
      sound = r.sound;
      blocks =
          All-Blocks-same w.pool q (remove_at w.live k)
            (λ x h. ap (λ (g : ℕ → ℕ). g x) r.same_sizes)
            (All-Blocks-remove w.pool w.live k o.blocks);
    }

-- A driver without buffers, its pool empty.
abbrev pub empty_world : ℕ → World
empty_world max_bytes = record {
  pool = record {
    blocks = λ _. [];
    counts = λ _. 0;
    bytes = 0;
    max_bytes = max_bytes;
    mutex_initialized = true;
    heap = λ _. 0;
    sizes = λ _. 0;
  };
  live = [];
}

empty_sum : (n : ℕ) → sum_below n (λ _. 0) ≡ 0
unfolding sum_below
empty_sum zero = refl
empty_sum (suc n) = omega (arith, empty_sum n)

empty_bytes : (n : ℕ) → sum_below n (λ i. 0 * class_size i) ≡ 0
unfolding sum_below
empty_bytes zero = refl
empty_bytes (suc n) = omega (arith, empty_bytes n)

empty-Owned : (max_bytes : ℕ) → max_bytes < 2 ^ 64 → Owned (empty_world max_bytes)
empty-Owned max_bytes h = record {
  sound = record {
    counted = λ i k. refl;
    few = λ i k. omega arith;
    summed = omega (arith, empty_bytes class_count);
    bounded = omega arith;
    small = h;
    owned = λ a. omega (arith, empty_sum class_count);
    once = λ a. omega arith;
    sized = λ i a h k. absurd (omega (arith, k));
  };
  blocks = tt;
}

-- Whatever buffers are created and destroyed, in whatever order and with whatever blocks from the
-- allocator: the pool's counts and its number of bytes are those of its chains, within 16 blocks
-- to a class and within the limit, and each block that the allocator has handed out and that was
-- not freed is either in one chain of the pool, once, or the memory of one buffer, and was handed
-- out with the size of its class or the size that the buffer notes.
pub Reach-Owned :
    (max_bytes : ℕ) {w : World} → max_bytes < 2 ^ 64 → Reach (empty_world max_bytes) w → Owned w
Reach-Owned max_bytes h here = empty-Owned max_bytes h
Reach-Owned max_bytes h (next r st) = Step-Owned st (Reach-Owned max_bytes h r)
