-- ===== src/HostBuffers/Trimming.antt =====
-- What is given back, and when: no byte in use is lost, a picture of the same size still fits, and
-- only a row of underused pictures makes a block smaller.
use nvidia_vaapi_driver.Prelude.{
  ℕ, ◌≤◌, ◌≡◌, inl, inr, refl, Bool, true, false, ◌&&◌, not, ltb, ◌==◌, Bool-cases, arith,
}
use nvidia_vaapi_driver.AppendableBuffer.{AppendableBuffer, Memalign}
use nvidia_vaapi_driver.AppendableBuffer.Laws.{IsValid, IsAllocator, Keeps}
use nvidia_vaapi_driver.AppendableBuffer.Trim.{trim_buffer-Trimmed}
use nvidia_vaapi_driver.HostBuffers.{
  TrimPolicy, HostBuffers, BytesUsed, host_buffer_trim_target, any_underused, counted, trimmed_if,
  maybe_trim_context_host_buffers,
}

-- A buffer in a block that is not larger, and in which what a picture used still has room.
pub record IsTrimmed (b : AppendableBuffer) (used : ℕ) (b' : AppendableBuffer) : Type 0 where
  pub keeps : Keeps b b'
  pub shrunk : b'.allocated ≤ b.allocated
  pub same_flag : b'.failed ≡ b.failed
  pub room : used ≤ b.allocated → used ≤ b'.allocated

IsTrimmed-self : (b : AppendableBuffer) (used : ℕ) → IsValid b → IsTrimmed b used b
IsTrimmed-self b used v = record {
  keeps = record { valid = v; same_size = refl; same_contents = refl };
  shrunk = omega arith;
  same_flag = refl;
  room = λ h. h;
}

-- All three buffers.
pub record AreTrimmed (h : HostBuffers) (used : BytesUsed) (h' : HostBuffers) : Type 0 where
  pub bitstream : IsTrimmed h.bitstream used.bitstream h'.bitstream
  pub offsets : IsTrimmed h.offsets used.offsets h'.offsets
  pub params : IsTrimmed h.params used.params h'.params

pub record AreValid (h : HostBuffers) : Type 0 where
  pub bitstream : IsValid h.bitstream
  pub offsets : IsValid h.offsets
  pub params : IsValid h.params

trim_target-bound : (used threshold : ℕ) → used ≤ host_buffer_trim_target used threshold
trim_target-bound used threshold = ground arith

module _ (memalign : Memalign) (alloc : IsAllocator memalign) (policy : TrimPolicy) where
  trimmed_if-IsTrimmed :
      (underused : Bool) (b : AppendableBuffer) (used : ℕ)
      → IsValid b
      → IsTrimmed b used (trimmed_if memalign policy underused b used)
  unfolding trimmed_if
  trimmed_if-IsTrimmed false b used v = IsTrimmed-self b used v
  trimmed_if-IsTrimmed true b used v =
      let target = host_buffer_trim_target used policy.threshold in
      let (b', e, t) = trim_buffer-Trimmed memalign alloc b target v in
      let enough : used ≤ target = trim_target-bound used policy.threshold in
      rw e (record {
        keeps = t.keeps;
        shrunk = t.shrunk;
        same_flag = t.same_flag;
        room =
            λ fits. elim (t.enough) [ inl h ↦ omega (arith, h, enough) | inr same ↦ rw same fits ];
      })

  -- maybeTrimContextHostBuffers on valid buffers: each keeps its bytes, its size and its flag in a
  -- valid block that is not larger, and a next picture that uses as much still has room.
  pub maybe_trim-AreTrimmed :
      (h : HostBuffers) (used : BytesUsed)
      → AreValid h
      → AreTrimmed h used (maybe_trim_context_host_buffers memalign policy h used)
  unfolding maybe_trim_context_host_buffers
  maybe_trim-AreTrimmed h used v =
      let kept : AreTrimmed h used h = record {
        bitstream = IsTrimmed-self h.bitstream used.bitstream v.bitstream;
        offsets = IsTrimmed-self h.offsets used.offsets v.offsets;
        params = IsTrimmed-self h.params used.params v.params;
      } in
      elim (Bool-cases (not (any_underused policy h used))) [
        | inl e ↦
            rw e
              (record { bitstream = kept.bitstream; offsets = kept.offsets; params = kept.params })
        | inr e ↦
            elim (Bool-cases
              (not (policy.frames == 0) && ltb (counted h.underuse_frames) policy.frames)) [
                | inl f ↦
                    rw (e, f)
                      (record {
                        bitstream = kept.bitstream;
                        offsets = kept.offsets;
                        params = kept.params;
                      })
                | inr f ↦
                    rw (e, f)
                      (record {
                        bitstream = trimmed_if-IsTrimmed _ h.bitstream used.bitstream v.bitstream;
                        offsets = trimmed_if-IsTrimmed _ h.offsets used.offsets v.offsets;
                        params = trimmed_if-IsTrimmed _ h.params used.params v.params;
                      })
              ]
      ]
