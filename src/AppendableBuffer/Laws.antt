-- ===== src/AppendableBuffer/Laws.antt =====
-- What src/appendable-buffer.c keeps: the block holds what the sizes say, and no operation loses
-- bytes that were appended before.
use nvidia_vaapi_driver.Prelude.{
  inl, inr, ℕ, zero, suc, ◌+◌, ◌-◌, ◌≤◌, ◌≡◌, refl, ap, ◌∙◌, Option, none, some, List, [], ◌++◌,
  Bool, true, false, ltb, leb, ◌==◌, if◌then◌else◌, take, drop, length, length-append,
  length-take_of_le, length-drop, take-append, take-append_left, size_max, add64, append-nil, arith,
  Bool-cases,
}
use nvidia_vaapi_driver.AppendableBuffer.Growth.{grow_by_half_bounds}
use nvidia_vaapi_driver.AppendableBuffer.{
  AppendableBuffer, bytes, memcpy, Memalign, capacity_for, moved, replace_block, reserve_buffer,
  reserve_additional_buffer, append_buffer, write_at_end,
}

pub record IsValid (b : AppendableBuffer) : Type 0 where
  pub block : length (bytes b.buf) ≡ b.allocated
  pub fits : b.size ≤ b.allocated
  pub small : b.allocated ≤ size_max

-- The bytes appended so far.
abbrev pub contents : AppendableBuffer → List ℕ
contents b = take b.size (bytes b.buf)

-- What memalign promises: a block of the size that was asked for.
abbrev pub IsAllocator : Memalign → Type 0
IsAllocator memalign = (n : ℕ) (m : List ℕ) → memalign n ≡ some m → length m ≡ n

-- `b'` is `b`, but for a larger or smaller block.
pub record Keeps (b b' : AppendableBuffer) : Type 0 where
  pub valid : IsValid b'
  pub same_size : b'.size ≡ b.size
  pub same_contents : contents b' ≡ contents b

pub length-contents : (b : AppendableBuffer) → IsValid b → length (contents b) ≡ b.size
length-contents b v = length-take_of_le b.size (bytes b.buf) (omega arith)

length-memcpy :
    (dst src : List ℕ) (n : ℕ)
    → n ≤ length src
    → n ≤ length dst
    → length (memcpy dst src n) ≡ length dst
length-memcpy dst src n h k =
    omega
      (arith, length-append (take n src) (drop n dst), length-take_of_le n src h, length-drop n dst)

pub take_none : (n : ℕ) (xs : List ℕ) → n ≡ 0 → take n xs ≡ []
take_none zero xs e = refl
take_none (suc n) xs e = absurd (omega arith)

-- A block at least as long as the used part takes it over whole.
pub moved_lem :
    (b : AppendableBuffer) (new : List ℕ)
    → IsValid b
    → b.size ≤ length new
    → (length (moved b new) ≡ length new) × (take b.size (moved b new) ≡ contents b)
moved_lem b new v room = ground (
  arith,
  length-memcpy new (bytes b.buf) b.size (omega arith) room,
  take-append_left b.size (contents b) (drop b.size new) (length-contents b v),
  take_none b.size new,
  take_none b.size (bytes b.buf),
)

capacity_for_bounds :
    (allocated required : ℕ)
    → allocated ≤ size_max
    → required ≤ size_max
    → (required ≤ capacity_for allocated required)
      × (allocated ≤ capacity_for allocated required)
      × (capacity_for allocated required ≤ size_max)
capacity_for_bounds allocated required a r =
    ground
      (arith, grow_by_half_bounds size_max required (if allocated == 0 then 256 else allocated) r)

module _ (memalign : Memalign) (alloc : IsAllocator memalign) where
  -- What a call that only moves the block has done: on success there is room for `required` bytes.
  pub record Reserved (b : AppendableBuffer) (required : ℕ) (r : Bool × AppendableBuffer)
      : Type 0 where
    pub keeps : Keeps b r.1
    pub room : r.0 ≡ true → (required ≤ r.1.allocated) × (r.1.failed ≡ b.failed)
    pub grown : b.allocated ≤ r.1.allocated
    pub refused : r.0 ≡ false → r.1 ≡ record b { failed = true }

  replace_block-Reserved :
      (b : AppendableBuffer) (required capacity : ℕ) (new : Option (List ℕ))
      → IsValid b
      → memalign capacity ≡ new
      → required ≤ capacity
      → b.allocated ≤ capacity
      → capacity ≤ size_max
      → Reserved b required (replace_block b capacity new)
  unfolding replace_block
  replace_block-Reserved b required capacity none v e r a s = record {
    keeps = ground arith;
    room = ground arith;
    grown = ground arith;
    refused = ground arith;
  }
  replace_block-Reserved b required capacity (some new) v e r a s = record {
    keeps = ground (arith, alloc capacity new e, moved_lem b new v);
    room = ground arith;
    grown = ground arith;
    refused = ground arith;
  }

  -- reserveBuffer keeps the used bytes whatever memalign does. If it returns true there is room
  -- for what was asked for; if it returns false only `failed` is set.
  pub reserve_buffer-Reserved :
      (b : AppendableBuffer) (required : ℕ)
      → IsValid b
      → required ≤ size_max
      → Reserved b required (reserve_buffer memalign b required)
  unfolding reserve_buffer
  reserve_buffer-Reserved b required v r = elim (Bool-cases (leb required b.allocated)) [
    | inl enough ↦ rw enough (record {
      keeps = record { valid = v; same_size = refl; same_contents = refl };
      room = λ _. (ground arith, refl);
      grown = omega arith;
      refused = λ h. cc;
    })
    | inr short ↦
        let (lo, mono, hi) = capacity_for_bounds b.allocated required v.small r in
        rw short (replace_block-Reserved b required _ _ v refl lo mono hi)
  ]

  -- reserveAdditionalBuffer is reserveBuffer of the sum, and refuses a sum past SIZE_MAX.
  pub reserve_additional-Reserved :
      (b : AppendableBuffer) (additional : ℕ)
      → IsValid b
      → additional ≤ size_max
      → Reserved b (b.size + additional) (reserve_additional_buffer memalign b additional)
  unfolding reserve_additional_buffer
  reserve_additional-Reserved b additional v a =
      elim (Bool-cases (ltb (size_max - additional) b.size)) [
        | inl over ↦ rw over (record {
          keeps = ground arith;
          room = ground arith;
          grown = omega arith;
          refused = ground arith;
        })
        | inr fits ↦
            let e : add64 b.size additional ≡ b.size + additional = ground arith in
            rw (fits, e) (reserve_buffer-Reserved b (b.size + additional) v (ground arith))
      ]

  -- What appendBuffer has done with the `n` bytes that start `src`.
  pub record Appended (b : AppendableBuffer) (src : List ℕ) (n : ℕ) (r : Bool × AppendableBuffer)
      : Type 0 where
    pub valid : IsValid r.1
    pub stored :
        r.0 ≡ true
        → (contents r.1 ≡ contents b ++ take n src)
          × (r.1.size ≡ b.size + n)
          × (r.1.failed ≡ b.failed)
    pub refused : r.0 ≡ false → r.1 ≡ record b { failed = true }

  write_at_end-Appended :
      (b : AppendableBuffer) (src : List ℕ) (n : ℕ) (r : Bool × AppendableBuffer)
      → n ≤ length src
      → b.size + n ≤ size_max
      → Reserved b (b.size + n) r
      → Appended b src n (write_at_end memalign src n r)
  unfolding write_at_end
  write_at_end-Appended b src n (false, b') h s t = record {
    valid = t.keeps.valid;
    stored = λ e. cc;
    refused = t.refused;
  }
  write_at_end-Appended b src n (true, b') h s t =
      let v = t.keeps.valid in
      let m = bytes b'.buf in
      let tail = memcpy (drop b'.size m) src n in
      let room = (t.room refl).0 in
      let e : b'.size ≡ b.size = t.keeps.same_size in
      let sum : add64 b'.size n ≡ b.size + n = omega arith in
      let count : length tail ≡ length (drop b'.size m) =
        length-memcpy (drop b'.size m) src n h (omega (arith, length-drop b'.size m)) in
      record {
        valid = record {
          block = omega (
            arith,
            length-append (take b'.size m) tail,
            length-drop b'.size m,
            length-contents b' v,
          );
          fits = omega arith;
          small = v.small;
        };
        stored = λ _. (
          ap (λ k. take k (take b'.size m ++ tail)) (omega arith)
              ∙ take-append b'.size n (contents b') tail (length-contents b' v)
              ∙ ap (λ l. contents b' ++ l)
                  (take-append_left n (take n src) (drop n (drop b'.size m))
                    (length-take_of_le n src h))
              ∙ ap (λ l. l ++ take n src) t.keeps.same_contents,
          sum,
          (t.room refl).1,
        );
        refused = λ e. cc;
      }

  -- appendBuffer: a success adds exactly the bytes of the source behind those already there; a
  -- refusal changes nothing but sets `failed`.
  pub append_buffer-Appended :
      (b : AppendableBuffer) (src : List ℕ) (n : ℕ)
      → IsValid b
      → n ≤ length src
      → n ≤ size_max
      → Appended b src n (append_buffer memalign b (some src) n)
  unfolding append_buffer
  append_buffer-Appended b src n v h s = elim (Bool-cases (n == 0)) [
    | inl nothing ↦ rw nothing (record {
      valid = v;
      stored = λ _. (ground (arith, take_none n src, append-nil (contents b)), ground arith, refl);
      refused = λ e. cc;
    })
    | inr some_bytes ↦ elim (Bool-cases (ltb (size_max - n) b.size)) [
      | inl over ↦
          rw (some_bytes, over)
            (record { valid = ground arith; stored = λ e. cc; refused = λ _. refl })
      | inr fits ↦
          let e : add64 b.size n ≡ b.size + n = ground arith in
          let r = reserve_buffer-Reserved b (b.size + n) v (ground arith) in
          rw (some_bytes, fits, e) (write_at_end-Appended b src n _ h (ground arith) r)
    ]
  ]
