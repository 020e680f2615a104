-- ===== src/BufferPool.antt =====
-- The pool of buffer memory of src/vabackend.c: blocks of eleven sizes, kept for later buffers.
-- A block is its address; the chain that starts at `bufferPool[i]` is the list of its blocks, first
-- to last. `heap` says how often the allocator counts each address as handed out and not yet freed,
-- and `sizes` with which size it handed the block at the address out last.
-- What `posix_memalign` returns is an argument, `none` for a failure. The statistics are left out.
pub mod Accounts
pub mod Release
pub mod Ownership
pub mod Destroy
mod Tests
use nvidia_vaapi_driver.Prelude.{
  ℕ, zero, suc, ◌+◌, ◌-◌, ◌*◌, ◌%◌, ◌^◌, Option, none, some, List, [], ◌∷◌, Bool, true, false, ◌&&◌,
  not, ltb, leb, ◌==◌, if◌then◌else◌, get_or,
}

abbrev pub class_count : ℕ
class_count = 11

-- `bufferPoolClassSizes`
abbrev pub class_sizes : List ℕ
class_sizes =
    (4 * 1024)
    ∷ (8 * 1024)
    ∷ (16 * 1024)
    ∷ (32 * 1024)
    ∷ (64 * 1024)
    ∷ (128 * 1024)
    ∷ (256 * 1024)
    ∷ (512 * 1024)
    ∷ (1024 * 1024)
    ∷ (2 * 1024 * 1024)
    ∷ (4 * 1024 * 1024)
    ∷ []

pub class_size : ℕ → ℕ
class_size i = get_or class_sizes i 0

-- The loop over the classes from `i` on; `none` is -1.
abbrev pub first_class : List ℕ → ℕ → ℕ → Option ℕ
first_class [] i size = none
first_class (s ∷ rest) i size =
    let later = first_class rest (i + 1) size in if leb size s then some i else later

pub class_for_size : ℕ → Option ℕ
class_for_size size = first_class class_sizes 0 size

-- The fields of `NVBuffer` that say where its memory is.
pub record BufferMemory : Type 0 where
  pub ptr : Option ℕ
  pub capacity : ℕ
  pub pool_class : Option ℕ

-- The fields of `NVDriver`, with the allocator's count for each address.
pub record Pool : Type 0 where
  pub blocks : ℕ → List ℕ
  pub counts : ℕ → ℕ
  pub bytes : ℕ
  pub max_bytes : ℕ
  pub mutex_initialized : Bool
  pub heap : ℕ → ℕ
  pub sizes : ℕ → ℕ

abbrev pub update {ℓ} : {A : Type ℓ} → (ℕ → A) → ℕ → A → ℕ → A
update f i a j = if i == j then a else f j

abbrev pub no_memory : BufferMemory
no_memory = record { ptr = none; capacity = 0; pool_class = none }

-- The lines under the mutex: the first block of the class, if there is one.
pub take_first : Pool → ℕ → List ℕ → Option ℕ × Pool
unfolding class_size
take_first p c [] = (none, p)
take_first p c (block ∷ next) = (
  some block,
  record p {
    blocks = update p.blocks c next;
    counts = update p.counts c ((p.counts c + 2 ^ 32 - 1) % 2 ^ 32);
    bytes = (p.bytes + 2 ^ 64 - class_size c) % 2 ^ 64;
  },
)

abbrev pub taken : Pool → Option ℕ → Option ℕ × Pool
taken p none = (none, p)
taken p (some c) = take_first p c (p.blocks c)

abbrev pub capacity_of : Option ℕ → ℕ → ℕ
capacity_of none size = size
capacity_of (some c) size = class_size c

-- posix_memalign of `capacity` bytes, where the pool had nothing.
pub from_allocator : ℕ → Option ℕ → Option ℕ × Pool → Option ℕ × Pool
from_allocator capacity fresh (some block, p) = (some block, p)
from_allocator capacity none (none, p) = (none, p)
from_allocator capacity (some block) (none, p) = (
  some block,
  record p { heap = update p.heap block (p.heap block + 1); sizes = update p.sizes block capacity },
)

abbrev pub filled : Option ℕ → ℕ → Option ℕ × Pool → Bool × BufferMemory × Pool
filled c size (none, p) = (false, no_memory, p)
filled c size (some block, p) =
    (true, record { ptr = some block; capacity = capacity_of c size; pool_class = c }, p)

-- `fresh` is what posix_memalign returns, if it is called.
pub allocate_buffer_memory : Pool → Option ℕ → ℕ → Bool × BufferMemory × Pool
unfolding from_allocator take_first class_for_size
allocate_buffer_memory p fresh size =
    if size == 0
    then (true, no_memory, p)
    else let c = class_for_size size in
      filled c size (from_allocator (capacity_of c size) fresh (taken p c))

-- The test for room in the pool.
abbrev pub is_kept : Pool → BufferMemory → ℕ → Bool
is_kept p b c =
    ltb (p.counts c) 16 && leb b.capacity p.max_bytes && leb p.bytes (p.max_bytes - b.capacity)

abbrev pub keep_block : Pool → ℕ → ℕ → ℕ → Pool
keep_block p block capacity c = record p {
  blocks = update p.blocks c (block ∷ p.blocks c);
  counts = update p.counts c ((p.counts c + 1) % 2 ^ 32);
  bytes = (p.bytes + capacity) % 2 ^ 64;
}

abbrev pub free_block : Pool → ℕ → Pool
free_block p block = record p { heap = update p.heap block (p.heap block - 1) }

-- The block of a buffer goes back to the pool or to the allocator.
pub give_back : Pool → BufferMemory → ℕ → Option ℕ → Pool
give_back p b block none = free_block p block
give_back p b block (some c) =
    if ltb c class_count && is_kept p b c
    then keep_block p block b.capacity c
    else free_block p block

pub release_block : Pool → BufferMemory → Option ℕ → BufferMemory × Pool
unfolding give_back
release_block p b none = (b, p)
release_block p b (some block) = (no_memory, give_back p b block b.pool_class)

-- `none` is a NULL buffer.
pub release_buffer_memory : Pool → Option BufferMemory → Option BufferMemory × Pool
unfolding release_block
release_buffer_memory p none = (none, p)
release_buffer_memory p (some b) = let (b', p') = release_block p b b.ptr in (some b', p')

-- The inner loop of destroyBufferPool.
pub free_chain : List ℕ → Pool → Pool
free_chain [] p = p
free_chain (block ∷ next) p = free_chain next (free_block p block)

-- The loop over the classes from `i` on, with the number of rounds left.
pub free_classes : ℕ → ℕ → Pool → Pool
free_classes zero i p = p
free_classes (suc rounds) i p =
    let q = free_chain (p.blocks i) p in
    free_classes rounds (i + 1)
      (record q { blocks = update q.blocks i []; counts = update q.counts i 0 })

pub destroy_buffer_pool : Pool → Pool
destroy_buffer_pool p =
    if not p.mutex_initialized
    then p
    else let q = free_classes class_count 0 p in record q { bytes = 0 }
