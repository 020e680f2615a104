-- ===== src/AppendableBuffer.antt =====
-- The growable byte buffer of src/appendable-buffer.c.
-- `buf` is the block that the buffer owns, with every byte of it; `none` is NULL. What `memalign`
-- returns is the argument `block`: a block of unknown contents, or `none` if the allocation fails.
pub mod Growth
pub mod Laws
pub mod Trim
mod Tests
use nvidia_vaapi_driver.Prelude.{
  ℕ, ◌+◌, ◌-◌, ◌*◌, ◌/◌, Option, none, some, List, [], ◌++◌, Bool, true, false, ◌||◌, ◌&&◌, not,
  ltb, leb, ◌==◌, if◌then◌else◌, take, drop, length, size_max, add64, mul64,
}
use Growth.{grow_by_half}

pub record AppendableBuffer : Type 0 where
  pub buf : Option (List ℕ)
  pub size : ℕ
  pub allocated : ℕ
  pub failed : Bool

-- The bytes of a block, none for NULL.
abbrev pub bytes : Option (List ℕ) → List ℕ
bytes none = []
bytes (some m) = m

abbrev pub is_null {ℓ} : {A : Type ℓ} → Option A → Bool
is_null none = true
is_null (some m) = false

-- The first `n` bytes of `dst` overwritten by those of `src`.
abbrev pub memcpy : List ℕ → List ℕ → ℕ → List ℕ
memcpy dst src n = take n src ++ drop n dst

-- What the environment's `memalign(16, n)` returns for each size.
abbrev pub Memalign : Type 0
Memalign = ℕ → Option (List ℕ)

-- The bytes that a move to a new block keeps.
abbrev moved : AppendableBuffer → List ℕ → List ℕ
moved b new =
    if not (is_null b.buf) && not (b.size == 0) then memcpy new (bytes b.buf) b.size else new

abbrev capacity_for : ℕ → ℕ → ℕ
capacity_for allocated required =
    grow_by_half size_max required (if allocated == 0 then 256 else allocated)

replace_block : AppendableBuffer → ℕ → Option (List ℕ) → Bool × AppendableBuffer
replace_block b capacity none = (false, record b { failed = true })
replace_block b capacity (some new) =
    (true, record b { buf = some (moved b new); allocated = capacity })

module _ (memalign : Memalign) where
  unfoldable pub reserve_buffer : AppendableBuffer → ℕ → Bool × AppendableBuffer
  unfolding replace_block
  reserve_buffer b required =
      if leb required b.allocated
      then (true, b)
      else let capacity = capacity_for b.allocated required in
        replace_block b capacity (memalign capacity)

  unfoldable pub reserve_additional_buffer : AppendableBuffer → ℕ → Bool × AppendableBuffer
  reserve_additional_buffer b additional =
      if ltb (size_max - additional) b.size
      then (false, record b { failed = true })
      else reserve_buffer b (add64 b.size additional)

  pub reserve_buffer_elements : AppendableBuffer → ℕ → ℕ → Bool × AppendableBuffer
  reserve_buffer_elements b elements element_size =
      if not (elements == 0) && ltb (size_max / elements) element_size
      then (false, record b { failed = true })
      else reserve_additional_buffer b (mul64 elements element_size)

  write_at_end : List ℕ → ℕ → Bool × AppendableBuffer → Bool × AppendableBuffer
  write_at_end src size (false, b) = (false, b)
  write_at_end src size (true, b) = (
    true,
    record b {
      buf = some (take b.size (bytes b.buf) ++ memcpy (drop b.size (bytes b.buf)) src size);
      size = add64 b.size size;
    },
  )

  -- `src` is the memory that `data` points at, `none` for NULL.
  pub append_buffer : AppendableBuffer → Option (List ℕ) → ℕ → Bool × AppendableBuffer
  unfolding write_at_end
  append_buffer b src size =
      if size == 0
      then (true, b)
      else if is_null src || ltb (size_max - size) b.size
      then (false, record b { failed = true })
      else write_at_end (bytes src) size (reserve_buffer b (add64 b.size size))

  shrink_block : AppendableBuffer → ℕ → Option (List ℕ) → Bool × AppendableBuffer
  shrink_block b target none = (false, b)
  shrink_block b target (some new) =
      (true, record b { buf = some (moved b new); allocated = target })

  -- A NULL buffer is the caller's `none`.
  trim_to : AppendableBuffer → ℕ → Bool × AppendableBuffer
  unfolding shrink_block
  trim_to b target =
      if leb b.allocated target
      then (true, b)
      else if target == 0
      then (true, record b { buf = none; allocated = 0 })
      else shrink_block b target (memalign target)

  pub trim_buffer : Option AppendableBuffer → ℕ → Bool × Option AppendableBuffer
  unfolding trim_to
  trim_buffer none target = (false, none)
  trim_buffer (some b) target =
      let (done, b') = trim_to b (if ltb target b.size then b.size else target) in (done, some b')

pub free_appendable_buffer : AppendableBuffer → AppendableBuffer
free_appendable_buffer b = record { buf = none; size = 0; allocated = 0; failed = false }
