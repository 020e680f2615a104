-- ===== src/AppendableBuffer/Trim.antt =====
-- src/appendable-buffer.c: trimming, reserving for elements, and appending into reserved room.
use nvidia_vaapi_driver.Prelude.{
  max, not, ◌&&◌, ℕ, zero, suc, ◌+◌, ◌-◌, ◌*◌, ◌/◌, ◌≤◌, ◌<◌, ◌≡◌, ◌⊎◌, refl, Option, none, some,
  List, Bool, true, false, leb, ltb, ◌==◌, if◌then◌else◌, length, size_max, add64, mul64, arith,
  Bool-cases, inl, inr,
}
use native.Mathlib.Nat.{le-div_iff_mul-le, mul_comm, zero-mul}
use nvidia_vaapi_driver.AppendableBuffer.{
  AppendableBuffer, bytes, Memalign, reserve_buffer, reserve_additional_buffer,
  reserve_buffer_elements, append_buffer, write_at_end, replace_block, capacity_for, shrink_block,
  trim_to, trim_buffer,
}
use nvidia_vaapi_driver.AppendableBuffer.Laws.{
  IsValid, IsAllocator, Keeps, Reserved, moved_lem, reserve_additional-Reserved, take_none,
}

product-le : (n size : ℕ) → 0 < n → size ≤ size_max / n → size * n ≤ size_max
product-le n size pos h = (le-div_iff_mul-le {x = size} {y = size_max} pos).0 h

-- `elements * elementSize` does not wrap once the test before it has passed.
elements_fit :
    (n size : ℕ) → (not (n == 0) && ltb (size_max / n) size) ≡ false → mul64 n size ≡ n * size
elements_fit zero size h = omega (arith, zero-mul size)
elements_fit (suc n) size h =
    omega (arith, mul_comm (suc n) size, product-le (suc n) size (omega arith) (ground arith))

module _ (memalign : Memalign) (alloc : IsAllocator memalign) where
  -- reserveBufferElements: true only with room for all the elements, counted without wrap-around;
  -- the used bytes stay as they are in either case.
  pub reserve_elements-Reserved :
      (b : AppendableBuffer) (n size : ℕ)
      → IsValid b
      → Reserved memalign alloc b (b.size + n * size) (reserve_buffer_elements memalign b n size)
  unfolding reserve_buffer_elements
  reserve_elements-Reserved b n size v =
      elim (Bool-cases (not (n == 0) && ltb (size_max / n) size)) [
        | inl over ↦ rw over (record {
          keeps = ground arith;
          room = ground arith;
          grown = omega arith;
          refused = ground arith;
        })
        | inr fits ↦
            let e = elements_fit n size fits in
            rw (fits, e)
              (reserve_additional-Reserved memalign alloc b (n * size) v (omega (arith, e)))
      ]

  -- What trimBuffer has done.
  pub record Trimmed (b : AppendableBuffer) (target : ℕ) (r : Bool × AppendableBuffer)
      : Type 0 where
    pub keeps : Keeps b r.1
    pub shrunk : r.1.allocated ≤ b.allocated
    pub same_flag : r.1.failed ≡ b.failed
    pub tight : r.0 ≡ true → target ≤ b.allocated → r.1.allocated ≡ target
    pub refused : r.0 ≡ false → r.1 ≡ b
    pub enough : (target ≤ r.1.allocated) ⊎ (r.1 ≡ b)

  trim_to-Trimmed :
      (b : AppendableBuffer) (target : ℕ)
      → IsValid b
      → b.size ≤ target
      → Trimmed b target (trim_to memalign b target)
  unfolding trim_to
  trim_to-Trimmed b target v h = elim (Bool-cases (leb b.allocated target)) [
    | inl already ↦ rw already (record {
      keeps = record { valid = v; same_size = refl; same_contents = refl };
      shrunk = omega arith;
      same_flag = refl;
      tight = ground arith;
      refused = λ e. refl;
      enough = inr refl;
    })
    | inr larger ↦ elim (Bool-cases (target == 0)) [
      | inl nothing ↦
          rw (larger, nothing)
            (record {
              keeps = ground (arith, take_none b.size (bytes b.buf));
              shrunk = omega arith;
              same_flag = refl;
              tight = ground arith;
              refused = λ e. cc;
              enough = inl (ground arith);
            })
      | inr some_bytes ↦
          rw (larger, some_bytes) (shrink_block-Trimmed (memalign target) refl (ground arith))
    ]
  ]
    where
      shrink_block-Trimmed :
          (new : Option (List ℕ))
          → memalign target ≡ new
          → target ≤ b.allocated
          → Trimmed b target (shrink_block memalign b target new)
      shrink_block-Trimmed none e t = record {
        keeps = record { valid = v; same_size = refl; same_contents = refl };
        shrunk = omega arith;
        same_flag = refl;
        tight = λ q. cc;
        refused = λ q. refl;
        enough = inr refl;
      }
      shrink_block-Trimmed (some m) e t = record {
        keeps = ground (arith, alloc target m e, moved_lem b m v);
        shrunk = t;
        same_flag = refl;
        tight = λ _ _. refl;
        refused = λ q. cc;
        enough = inl (omega arith);
      }

  -- trimBuffer never goes below the bytes in use: they, the size and `failed` stay, the block never
  -- grows, a success leaves it at the target where it was not below, a refusal changes nothing.
  pub trim_buffer-Trimmed :
      (b : AppendableBuffer) (target : ℕ)
      → IsValid b
      → let r = trim_buffer memalign (some b) target in
        (b' : AppendableBuffer) × (r.1 ≡ some b') × Trimmed b (max b.size target) (r.0, b')
  unfolding trim_buffer
  trim_buffer-Trimmed b target v =
      let e : (if ltb target b.size then b.size else target) ≡ max b.size target = ground arith in
      rw e (_, refl, trim_to-Trimmed b (max b.size target) v (omega arith))

pub append-into_room :
    (memalign : Memalign) (b : AppendableBuffer) (src : List ℕ) (n : ℕ)
    → IsValid b
    → n ≤ length src
    → b.size + n ≤ b.allocated
    → (append_buffer memalign b (some src) n).0 ≡ true
unfolding append_buffer reserve_buffer write_at_end
append-into_room memalign b src n v h room = ground arith

-- It then stays in its block.
pub append-same_block :
    (memalign : Memalign) (b : AppendableBuffer) (src : List ℕ) (n : ℕ)
    → IsValid b
    → b.size + n ≤ b.allocated
    → (append_buffer memalign b (some src) n).1.allocated ≡ b.allocated
unfolding append_buffer reserve_buffer write_at_end
append-same_block memalign b src n v room = ground arith

-- reserveAdditionalBuffer and then appendBuffer of no more than was reserved: the append succeeds
-- even if memalign never succeeds again.
pub append-reserve :
    (memalign later : Memalign) (b : AppendableBuffer) (src : List ℕ) (n additional : ℕ)
    → IsAllocator memalign
    → IsValid b
    → additional ≤ size_max
    → n ≤ length src
    → n ≤ additional
    → let r = reserve_additional_buffer memalign b additional in
      r.0 ≡ true → (append_buffer later r.1 (some src) n).0 ≡ true
append-reserve memalign later b src n additional alloc v a h k e =
    let r = reserve_additional-Reserved memalign alloc b additional v a in
    append-into_room later _ src n r.keeps.valid h (omega (arith, (r.room e).0))

-- With an allocator that never fails the reservations succeed.
abbrev pub AlwaysAllocates : Memalign → Type 0
AlwaysAllocates memalign = (n : ℕ) → (m : List ℕ) × (memalign n ≡ some m)

reserve_buffer-succeeds :
    (memalign : Memalign) (b : AppendableBuffer) (required : ℕ)
    → AlwaysAllocates memalign
    → (reserve_buffer memalign b required).0 ≡ true
unfolding reserve_buffer replace_block
reserve_buffer-succeeds memalign b required all = elim (Bool-cases (leb required b.allocated)) [
  | inl room ↦ rw room refl
  | inr short ↦ let (m, e) = all (capacity_for b.allocated required) in rw (short, e) refl
]

pub reserve_additional-succeeds :
    (memalign : Memalign) (b : AppendableBuffer) (additional : ℕ)
    → AlwaysAllocates memalign
    → additional ≤ size_max
    → b.size + additional ≤ size_max
    → (reserve_additional_buffer memalign b additional).0 ≡ true
unfolding reserve_additional_buffer
reserve_additional-succeeds memalign b additional all a fits =
    let e : ltb (size_max - additional) b.size ≡ false = ground arith in
    rw e (reserve_buffer-succeeds memalign b (add64 b.size additional) all)

pub reserve_elements-succeeds :
    (memalign : Memalign) (b : AppendableBuffer) (n size : ℕ)
    → AlwaysAllocates memalign
    → n * size ≤ size_max
    → b.size + n * size ≤ size_max
    → (reserve_buffer_elements memalign b n size).0 ≡ true
unfolding reserve_buffer_elements
reserve_elements-succeeds memalign b zero size all a fits =
    reserve_additional-succeeds memalign b (mul64 0 size) all (omega (arith, zero-mul size))
      (omega (arith, zero-mul size, fits))
reserve_elements-succeeds memalign b (suc n) size all a fits =
    let below : size ≤ size_max / suc n =
      (le-div_iff_mul-le {x = size} {y = size_max} (omega arith)).1
        (omega (arith, mul_comm (suc n) size, a)) in
    let e : (not (suc n == 0) && ltb (size_max / suc n) size) ≡ false = ground (arith, below) in
    let m : mul64 (suc n) size ≡ suc n * size = omega (arith, a) in
    rw (e, m) (reserve_additional-succeeds memalign b (suc n * size) all a fits)

-- Then trimming succeeds too.
pub trim_buffer-succeeds :
    (memalign : Memalign) (b : AppendableBuffer) (target : ℕ)
    → AlwaysAllocates memalign
    → (trim_buffer memalign (some b) target).0 ≡ true
unfolding trim_buffer trim_to shrink_block
trim_buffer-succeeds memalign b target always =
    let size = if ltb target b.size then b.size else target in
    let (m, e) = always size in
    elim (Bool-cases (leb b.allocated size)) [
      | inl h ↦ rw h refl
      | inr h ↦ elim (Bool-cases (size == 0)) [ inl k ↦ rw (h, k) refl | inr k ↦ rw (h, k, e) refl ]
    ]
