-- ===== src/HostBuffers.antt =====
-- src/vabackend.c: after each decoded picture the blocks of the codec's buffers that were far too
-- large for some pictures in a row are given back (maybeTrimContextHostBuffers).
pub mod Trimming
pub mod Timing
mod Tests
use nvidia_vaapi_driver.Prelude.{
  ℕ, zero, suc, ◌+◌, ◌*◌, ◌/◌, Option, none, some, List, [], ◌∷◌, Bool, true, false, ◌&&◌, ◌||◌,
  not, ltb, leb, ◌==◌, if◌then◌else◌, size_max, uint32_max,
}
use nvidia_vaapi_driver.AppendableBuffer.{AppendableBuffer, Memalign, trim_buffer}

-- `hostBufferTrimThresholdBytes` and `hostBufferTrimFrames` of the driver.
pub record TrimPolicy : Type 0 where
  pub threshold : ℕ
  pub frames : ℕ

-- The buffers of a context, and `hostBufferUnderuseFrames`.
pub record HostBuffers : Type 0 where
  pub bitstream : AppendableBuffer
  pub offsets : AppendableBuffer
  pub params : AppendableBuffer
  pub underuse_frames : ℕ

-- The bytes that a picture used of each.
pub record BytesUsed : Type 0 where
  pub bitstream : ℕ
  pub offsets : ℕ
  pub params : ℕ

abbrev pub host_buffer_is_underused : AppendableBuffer → ℕ → ℕ → Bool
host_buffer_is_underused b used threshold =
    not (threshold == 0) && ltb threshold b.allocated && leb used (b.allocated / 4)

-- A floor of 64 bits is never above SIZE_MAX.
abbrev pub host_buffer_trim_target : ℕ → ℕ → ℕ
host_buffer_trim_target used threshold =
    let target = if leb used (size_max / 2) then used * 2 else used in
    let least = if ltb (threshold / 8) 256 then 256 else threshold / 8 in
    if ltb target least then least else target

abbrev pub underused_bitstream : TrimPolicy → HostBuffers → BytesUsed → Bool
underused_bitstream policy h used =
    host_buffer_is_underused h.bitstream used.bitstream policy.threshold

abbrev pub underused_offsets : TrimPolicy → HostBuffers → BytesUsed → Bool
underused_offsets policy h used = host_buffer_is_underused h.offsets used.offsets policy.threshold

abbrev pub underused_params : TrimPolicy → HostBuffers → BytesUsed → Bool
underused_params policy h used = host_buffer_is_underused h.params used.params policy.threshold

abbrev pub any_underused : TrimPolicy → HostBuffers → BytesUsed → Bool
any_underused policy h used =
    underused_bitstream policy h used
    || underused_offsets policy h used
    || underused_params policy h used

-- The buffer behind a pointer that is not null.
abbrev pub buffer_or : AppendableBuffer → Option AppendableBuffer → AppendableBuffer
buffer_or b none = b
buffer_or b (some b') = b'

-- The count of pictures, which stays at UINT32_MAX.
abbrev pub counted : ℕ → ℕ
counted frames = if ltb frames uint32_max then frames + 1 else frames

module _ (memalign : Memalign) (policy : TrimPolicy) where
  unfoldable pub trimmed_if : Bool → AppendableBuffer → ℕ → AppendableBuffer
  trimmed_if underused b used =
      if underused
      then buffer_or b
          (trim_buffer memalign (some b) (host_buffer_trim_target used policy.threshold)).1
      else b

  -- maybeTrimContextHostBuffers, but for what it counts as statistics.
  unfoldable pub maybe_trim_context_host_buffers : HostBuffers → BytesUsed → HostBuffers
  maybe_trim_context_host_buffers h used =
      if not (any_underused policy h used)
      then record h { underuse_frames = 0 }
      else if not (policy.frames == 0) && ltb (counted h.underuse_frames) policy.frames
      then record h { underuse_frames = counted h.underuse_frames }
      else record {
        bitstream = trimmed_if (underused_bitstream policy h used) h.bitstream used.bitstream;
        offsets = trimmed_if (underused_offsets policy h used) h.offsets used.offsets;
        params = trimmed_if (underused_params policy h used) h.params used.params;
        underuse_frames = 0;
      }
