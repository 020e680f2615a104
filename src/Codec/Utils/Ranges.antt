-- ===== src/Codec/Utils/Ranges.antt =====
-- src/codec-utils.c: what passes the checks.
use nvidia_vaapi_driver.Prelude.{
  ℕ, ◌+◌, ◌-◌, ◌%◌, ◌^◌, ◌≤◌, ◌<◌, ◌≡◌, ◌⊎◌, inl, inr, refl, none, some, List, true, false, ◌||◌,
  ltb, Bool-cases, drop, length, uint32_max, arith,
}
use nvidia_vaapi_driver.Codec.Utils.{
  VaBuffer, Context, PicParams, reject, validate_slice_range, can_append_bitstream,
  commit_bitstream_length,
}

-- Of a buffer whose memory is as long as it says.
pub record IsBacked (b : VaBuffer) : Type 0 where
  pub backed : (m : List ℕ) → b.ptr ≡ some m → b.size ≤ length m

-- nvValidateSliceRange accepts exactly the ranges inside the buffer, hands back the memory at the
-- offset and then leaves the context alone.
pub validate_slice_range-accepts :
    (ctx : Context) (b : VaBuffer) (m : List ℕ) (offset size : ℕ)
    → b.ptr ≡ some m
    → offset + size ≤ b.size
    → validate_slice_range (some ctx) (some b) offset size ≡ (true, some ctx, some (drop offset m))
unfolding validate_slice_range
validate_slice_range-accepts ctx b m offset size e h = ground arith

pub validate_slice_range-rejects :
    (ctx : Context) (b : VaBuffer) (offset size : ℕ)
    → (b.ptr ≡ none) ⊎ (b.size < offset + size)
    → validate_slice_range (some ctx) (some b) offset size ≡ (false, some (reject ctx), none)
unfolding validate_slice_range
validate_slice_range-rejects ctx b offset size h = ground arith

-- nvCanAppendCuvidBitstream accepts what keeps the bitstream within 32 bits, else marks the context.
pub can_append-cases :
    (ctx : Context) (n : ℕ)
    → (can_append_bitstream (some ctx) n ≡ (true, some ctx))
        × (ctx.bitstream_buffer.size + n ≤ uint32_max)
      ⊎ (can_append_bitstream (some ctx) n ≡ (false, some (reject ctx)))
        × (uint32_max < ctx.bitstream_buffer.size + n)
unfolding can_append_bitstream
can_append-cases ctx n =
    let size = ctx.bitstream_buffer.size in
    elim (Bool-cases (ltb uint32_max size || ltb (uint32_max - size) n)) [
      | inl over ↦ rw over (inr (refl, ground arith))
      | inr fits ↦ rw fits (inl (refl, ground arith))
    ]

-- nvCommitCuvidBitstreamLength stores the length of a bitstream of 32 bits.
pub commit-fits :
    (ctx : Context) (pic : PicParams)
    → ctx.bitstream_buffer.size ≤ uint32_max
    → commit_bitstream_length (some ctx) (some pic)
      ≡ (true, some ctx, some (record pic { bitstream_data_len = ctx.bitstream_buffer.size }))
unfolding commit_bitstream_length
commit-fits ctx pic h =
    let e : ctx.bitstream_buffer.size % 2 ^ 32 ≡ ctx.bitstream_buffer.size = omega arith in
    ground (arith, e)
