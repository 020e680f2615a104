-- ===== src/BufferPool/Release.antt =====
-- src/vabackend.c: allocateBufferMemory and releaseBufferMemory keep the accounts of the pool.
use nvidia_vaapi_driver.Prelude.{
  ℕ, ◌+◌, ◌≤◌, ◌<◌, ◌≡◌, refl, ap, ◌∙◌, Option, none, some, List, [], ◌∷◌, Bool, true, false, ◌&&◌,
  ltb, ◌==◌, arith, inl, inr, Bool-cases, Option-cases,
}
use nvidia_vaapi_driver.BufferPool.{
  BufferMemory, Pool, class_count, class_size, class_for_size, no_memory, take_first,
  from_allocator, filled, capacity_of, allocate_buffer_memory, give_back, is_kept, release_block,
  release_buffer_memory,
}
use nvidia_vaapi_driver.Prelude.Sums.{count}
use nvidia_vaapi_driver.BufferPool.Accounts.{
  IsSound, IsSound-congr, single, take_first-IsSound, keep_block-IsSound, free_block-IsSound,
  fresh_block-IsSound,
}

abbrev pub held : Option ℕ → ℕ → ℕ
held none a = 0
held (some block) a = single block a

-- A buffer of one of the pool's classes has the capacity of its class.
abbrev pub FitsClass : Option ℕ → ℕ → Type 0
FitsClass none capacity = Unit {0}
FitsClass (some c) capacity = (c < class_count) × (capacity ≡ class_size c)

-- The allocator has handed the memory out with that size.
abbrev pub HasSize : Pool → Option ℕ → ℕ → Type 0
HasSize p none capacity = Unit {0}
HasSize p (some block) capacity = p.sizes block ≡ capacity

-- What allocateBufferMemory and releaseBufferMemory leave of a buffer.
pub record IsBlock (p : Pool) (b : BufferMemory) : Type 0 where
  pub class : FitsClass b.pool_class b.capacity
  pub size : HasSize p b.ptr b.capacity

-- posix_memalign returns a block that is not in use.
abbrev pub IsFresh : Pool → Option ℕ → Type 0
IsFresh p none = Unit {0}
IsFresh p (some block) = p.heap block ≡ 0

pub class_for_size-lt :
    (size c : ℕ) → class_for_size size ≡ some c → (c < class_count) × (size ≤ class_size c)
unfolding class_for_size class_size
class_for_size-lt size c e = ground arith

-- What allocateBufferMemory leaves: the new buffer holds what the pool no longer has.
pub record Allocates (p : Pool) (uses : ℕ → ℕ) (size : ℕ) (r : Bool × BufferMemory × Pool)
    : Type 0 where
  pub sound : IsSound r.2 (λ a. uses a + held r.1.ptr a)
  pub block : IsBlock r.2 r.1
  pub others : (a : ℕ) → 0 < p.heap a → r.2.sizes a ≡ p.sizes a
  pub enough : r.0 ≡ true → size ≤ r.1.capacity
  pub mapped : r.0 ≡ true → 0 < size → (a : ℕ) × (r.1.ptr ≡ some a)
  pub none_left : r.0 ≡ false → r.1 ≡ no_memory

no_block-IsSound : (p : Pool) (uses : ℕ → ℕ) → IsSound p uses → IsSound p (λ a. uses a + 0)
no_block-IsSound p uses s = IsSound-congr p uses (λ a. uses a + 0) (λ a. omega arith) s

filled-Allocates :
    (p0 : Pool) (c : Option ℕ) (uses : ℕ → ℕ) (size : ℕ) (r : Option ℕ × Pool)
    → FitsClass c (capacity_of c size)
    → size ≤ capacity_of c size
    → IsSound r.1 (λ a. uses a + held r.0 a)
    → HasSize r.1 r.0 (capacity_of c size)
    → ((a : ℕ) → 0 < p0.heap a → r.1.sizes a ≡ p0.sizes a)
    → Allocates p0 uses size (filled c size r)
filled-Allocates p0 c uses size (none, p) fits room s z o = record {
  sound = s;
  block = record { class = tt; size = tt };
  others = o;
  enough = λ e. cc;
  mapped = λ e. cc;
  none_left = λ _. refl;
}
filled-Allocates p0 c uses size (some block, p) fits room s z o = record {
  sound = s;
  block = record { class = fits; size = z };
  others = o;
  enough = λ _. room;
  mapped = λ _ _. (block, refl);
  none_left = λ e. cc;
}

from_allocator-IsSound :
    (capacity : ℕ) (fresh : Option ℕ) (uses : ℕ → ℕ) (r : Option ℕ × Pool)
    → (r.0 ≡ none → IsFresh r.1 fresh)
    → IsSound r.1 (λ a. uses a + held r.0 a)
    → IsSound
        (from_allocator capacity fresh r).1
        (λ a. uses a + held (from_allocator capacity fresh r).0 a)
unfolding from_allocator
from_allocator-IsSound capacity fresh uses (some block, p) f s = s
from_allocator-IsSound capacity none uses (none, p) f s = s
from_allocator-IsSound capacity (some block) uses (none, p) f s =
    let s' = IsSound-congr p (λ a. uses a + 0) uses (λ a. omega arith) s in
    fresh_block-IsSound p uses block capacity (f refl) s'

from_allocator-HasSize :
    (capacity : ℕ) (fresh : Option ℕ) (r : Option ℕ × Pool)
    → HasSize r.1 r.0 capacity
    → HasSize (from_allocator capacity fresh r).1 (from_allocator capacity fresh r).0 capacity
unfolding from_allocator
from_allocator-HasSize capacity fresh (some block, p) z = z
from_allocator-HasSize capacity none (none, p) z = tt
from_allocator-HasSize capacity (some block) (none, p) z = ground arith

-- The sizes of the blocks that are handed out stay.
from_allocator-sizes :
    (capacity : ℕ) (fresh : Option ℕ) (r : Option ℕ × Pool) (a : ℕ)
    → (r.0 ≡ none → IsFresh r.1 fresh)
    → 0 < r.1.heap a
    → (from_allocator capacity fresh r).1.sizes a ≡ r.1.sizes a
unfolding from_allocator
from_allocator-sizes capacity fresh (some block, p) a f h = refl
from_allocator-sizes capacity none (none, p) a f h = refl
from_allocator-sizes capacity (some block) (none, p) a f h = elim (Bool-cases (block == a)) [
  | inl e ↦
      let same : block ≡ a = ground arith in
      let heap : p.heap block ≡ p.heap a = ap p.heap same in absurd (omega (arith, f refl, heap))
  | inr e ↦ rw e refl
]

-- The block of a class has the size of the class.
taken-HasSize :
    (p : Pool) (uses : ℕ → ℕ) (c : ℕ) (xs : List ℕ)
    → c < class_count
    → p.blocks c ≡ xs
    → IsSound p uses
    → HasSize (take_first p c xs).1 (take_first p c xs).0 (class_size c)
unfolding take_first
taken-HasSize p uses c [] inside e s = tt
taken-HasSize p uses c (block ∷ next) inside e s =
    let first : count block (p.blocks c) ≡ count block (block ∷ next) = ap (count block) e in
    s.sized c block inside (ground (arith, first))

taken-sizes :
    (p : Pool) (c : ℕ) (xs : List ℕ)
    → ((take_first p c xs).1.sizes ≡ p.sizes) × ((take_first p c xs).1.heap ≡ p.heap)
unfolding take_first
taken-sizes p c [] = (refl, refl)
taken-sizes p c (block ∷ next) = (refl, refl)

-- The first block of the class, or none.
taken-IsSound :
    (p : Pool) (uses : ℕ → ℕ) (c : ℕ) (xs : List ℕ)
    → c < class_count
    → p.blocks c ≡ xs
    → IsSound p uses
    → IsSound (take_first p c xs).1 (λ a. uses a + held (take_first p c xs).0 a)
taken-IsSound p uses c [] inside e s = (unfold take_first in no_block-IsSound p uses s)
taken-IsSound p uses c (block ∷ next) inside e s =
    let s' = take_first-IsSound p uses c block next inside e s in (unfold take_first in s')

taken-IsFresh :
    (p : Pool) (fresh : Option ℕ) (c : ℕ) (xs : List ℕ)
    → IsFresh p fresh
    → (take_first p c xs).0 ≡ none
    → IsFresh (take_first p c xs).1 fresh
unfolding take_first
taken-IsFresh p fresh c [] f e = f
taken-IsFresh p fresh c (block ∷ next) f e = cc

-- allocateBufferMemory gives a buffer memory that no other buffer has and that has left the pool; the
-- allocator handed it out with the size that the buffer notes, which is that of its class if it has
-- one and at least what was asked for. A failure leaves the buffer without memory. The pool stays
-- consistent, and the sizes of all other blocks stay.
pub allocate-Allocates :
    (p : Pool) (uses : ℕ → ℕ) (fresh : Option ℕ) (size : ℕ)
    → IsSound p uses
    → IsFresh p fresh
    → Allocates p uses size (allocate_buffer_memory p fresh size)
unfolding allocate_buffer_memory
allocate-Allocates p uses fresh size s f = elim (Bool-cases (size == 0)) [
  | inl nothing ↦ rw nothing (record {
    sound = no_block-IsSound p uses s;
    block = record { class = tt; size = tt };
    others = λ a h. refl;
    enough = λ _. ground arith;
    mapped = λ _ pos. ground arith;
    none_left = λ e. cc;
  })
  | inr more ↦ rw more (elim (Option-cases (class_for_size size)) [
    | inl large ↦ rw large (
        filled-Allocates p none uses size _ tt (omega arith)
          (from_allocator-IsSound size fresh uses (none, p) (λ _. f) (no_block-IsSound p uses s))
          (from_allocator-HasSize size fresh (none, p) tt)
          (λ a h. from_allocator-sizes size fresh (none, p) a (λ _. f) h))
    | inr (c, e) ↦
        let (inside, room) = class_for_size-lt size c e in
        let t = take_first p c (p.blocks c) in
        let (same, heap) = taken-sizes p c (p.blocks c) in
        let unused = taken-IsFresh p fresh c (p.blocks c) f in
        rw e (
          filled-Allocates p (some c) uses size _ (inside, refl) room
            (from_allocator-IsSound (class_size c) fresh uses t unused
              (taken-IsSound p uses c (p.blocks c) inside refl s))
            (from_allocator-HasSize (class_size c) fresh t
              (taken-HasSize p uses c (p.blocks c) inside refl s))
            (λ a h.
              let h' : 0 < t.1.heap a = rw heap h in
              from_allocator-sizes (class_size c) fresh t a unused h'
              ∙ ap (λ (g : ℕ → ℕ). g a) same))
  ])
]

give_back-IsSound :
    (p : Pool) (uses : ℕ → ℕ) (b : BufferMemory) (block : ℕ) (c : Option ℕ)
    → FitsClass c b.capacity
    → p.sizes block ≡ b.capacity
    → IsSound p (λ a. uses a + single block a)
    → IsSound (give_back p b block c) uses
unfolding give_back
give_back-IsSound p uses b block none fits z s = free_block-IsSound p uses block s
give_back-IsSound p uses b block (some c) fits z s =
    elim (Bool-cases (ltb c class_count && is_kept p b c)) [
      | inl kept ↦ rw kept (
          keep_block-IsSound p uses c block b.capacity fits.0 fits.1 z (ground arith) (ground arith)
            s)
      | inr full ↦ rw full (free_block-IsSound p uses block s)
    ]

-- What releaseBufferMemory leaves: nothing of the buffer, and its block in the pool or free.
pub record Releases (p : Pool) (uses : ℕ → ℕ) (r : Option BufferMemory × Pool) : Type 0 where
  pub sound : IsSound r.1 uses
  pub same_sizes : r.1.sizes ≡ p.sizes
  pub emptied : (b : BufferMemory) → r.0 ≡ some b → b.ptr ≡ none

abbrev pub held_by : Option BufferMemory → ℕ → ℕ
held_by none a = 0
held_by (some b) a = held b.ptr a

abbrev pub All-IsBlock : Pool → Option BufferMemory → Type 0
All-IsBlock p none = Unit {0}
All-IsBlock p (some b) = IsBlock p b

give_back-sizes :
    (p : Pool) (b : BufferMemory) (block : ℕ) (c : Option ℕ)
    → (give_back p b block c).sizes ≡ p.sizes
unfolding give_back
give_back-sizes p b block none = refl
give_back-sizes p b block (some c) = elim (Bool-cases (ltb c class_count && is_kept p b c)) [
  | inl kept ↦ rw kept refl
  | inr full ↦ rw full refl
]

release_block-Releases :
    (p : Pool) (uses : ℕ → ℕ) (b : BufferMemory) (ptr : Option ℕ)
    → ptr ≡ b.ptr
    → IsBlock p b
    → IsSound p (λ a. uses a + held ptr a)
    → Releases p uses (some (release_block p b ptr).0, (release_block p b ptr).1)
unfolding release_block
release_block-Releases p uses b none e k s = record {
  sound = IsSound-congr p (λ a. uses a + 0) uses (λ a. omega arith) s;
  same_sizes = refl;
  emptied = λ b' h. cc;
}
release_block-Releases p uses b (some block) e k s = record {
  sound =
      let s0 : HasSize p b.ptr b.capacity = k.size in
      let z : HasSize p (some block) b.capacity = rw (← e) at s0 in
      give_back-IsSound p uses b block b.pool_class k.class z s;
  same_sizes = give_back-sizes p b block b.pool_class;
  emptied = λ b' h. cc;
}

-- releaseBufferMemory takes the memory of a buffer back, into the pool or to the allocator; the
-- pool stays consistent, within its limits, and counts one block less as handed out.
pub release-Releases :
    (p : Pool) (uses : ℕ → ℕ) (b : Option BufferMemory)
    → All-IsBlock p b
    → IsSound p (λ a. uses a + held_by b a)
    → Releases p uses (release_buffer_memory p b)
unfolding release_buffer_memory
release-Releases p uses none k s = record {
  sound = IsSound-congr p (λ a. uses a + 0) uses (λ a. omega arith) s;
  same_sizes = refl;
  emptied = λ b' h. cc;
}
release-Releases p uses (some b) k s = release_block-Releases p uses b b.ptr refl k s
