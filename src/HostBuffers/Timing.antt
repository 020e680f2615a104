-- ===== src/HostBuffers/Timing.antt =====
-- When a block is given back: only after `hostBufferTrimFrames` underused pictures in a row, and then
-- indeed.
use nvidia_vaapi_driver.Prelude.{
  ◌+◌, ◌≤◌, ◌<◌, ◌≡◌, inl, inr, refl, ap, ◌∙◌, List, [], ◌∷◌, ◌++◌, true, false, ◌&&◌, not, ltb,
  ◌==◌, Bool-cases, arith, length, uint32_max,
}
use Prim.Native.Nat.{max}
use nvidia_vaapi_driver.AppendableBuffer.{AppendableBuffer, Memalign}
use nvidia_vaapi_driver.AppendableBuffer.Laws.{IsValid, IsAllocator}
use nvidia_vaapi_driver.AppendableBuffer.Trim.{
  trim_buffer-Trimmed, trim_buffer-succeeds, AlwaysAllocates,
}
use nvidia_vaapi_driver.HostBuffers.{
  TrimPolicy, HostBuffers, BytesUsed, host_buffer_trim_target, underused_bitstream, any_underused,
  counted, trimmed_if, maybe_trim_context_host_buffers,
}

-- The pictures one after another.
pub trim_after_each : Memalign → TrimPolicy → HostBuffers → List BytesUsed → HostBuffers
trim_after_each memalign policy h [] = h
trim_after_each memalign policy h (used ∷ rest) =
    trim_after_each memalign policy (maybe_trim_context_host_buffers memalign policy h used) rest

pub record SameBuffers (h h' : HostBuffers) : Type 0 where
  pub bitstream : h'.bitstream ≡ h.bitstream
  pub offsets : h'.offsets ≡ h.offsets
  pub params : h'.params ≡ h.params

-- The bitstream's block is far too large for each of the pictures.
abbrev pub AllUnderused : TrimPolicy → HostBuffers → List BytesUsed → Type 0
AllUnderused policy h [] = Unit {0}
AllUnderused policy h (used ∷ rest) =
    (underused_bitstream policy h used ≡ true) × AllUnderused policy h rest

AllUnderused-congr :
    (policy : TrimPolicy) (h h' : HostBuffers) (pictures : List BytesUsed)
    → h'.bitstream ≡ h.bitstream
    → AllUnderused policy h pictures
    → AllUnderused policy h' pictures
AllUnderused-congr policy h h' [] e all = tt
AllUnderused-congr policy h h' (used ∷ rest) e (u, all) =
    (rw e u, AllUnderused-congr policy h h' rest e all)

module _ (memalign : Memalign) (policy : TrimPolicy) where
  abbrev step : HostBuffers → BytesUsed → HostBuffers
  step = maybe_trim_context_host_buffers memalign policy

  step-waits :
      (h : HostBuffers) (used : BytesUsed)
      → h.underuse_frames + 1 < policy.frames
      → SameBuffers h (step h used) × ((step h used).underuse_frames ≤ h.underuse_frames + 1)
  unfolding maybe_trim_context_host_buffers
  step-waits h used early = elim (Bool-cases (not (any_underused policy h used))) [
    | inl e ↦ rw e (record { bitstream = refl; offsets = refl; params = refl }, omega arith)
    | inr e ↦
        let f : (not (policy.frames == 0) && ltb (counted h.underuse_frames) policy.frames) ≡ true =
          ground arith in
        rw (e, f) (record { bitstream = refl; offsets = refl; params = refl }, ground arith)
  ]

  -- As long as fewer pictures than `hostBufferTrimFrames` were counted and decoded, whatever they
  -- used, no buffer changes.
  pub trim_after_each-waits :
      (h : HostBuffers) (pictures : List BytesUsed)
      → h.underuse_frames + length pictures < policy.frames
      → SameBuffers h (trim_after_each memalign policy h pictures)
  unfolding trim_after_each
  trim_after_each-waits h [] early = record { bitstream = refl; offsets = refl; params = refl }
  trim_after_each-waits h (used ∷ rest) early =
      let (s, b) = step-waits h used (omega arith) in
      let t = trim_after_each-waits (step h used) rest (omega (arith, b)) in
      record {
        bitstream = t.bitstream ∙ s.bitstream;
        offsets = t.offsets ∙ s.offsets;
        params = t.params ∙ s.params;
      }

  step-counts :
      (h : HostBuffers) (used : BytesUsed)
      → underused_bitstream policy h used ≡ true
      → h.underuse_frames + 1 < policy.frames
      → policy.frames ≤ uint32_max
      → (step h used).underuse_frames ≡ h.underuse_frames + 1
  unfolding maybe_trim_context_host_buffers
  step-counts h used u early small =
      let e : not (any_underused policy h used) ≡ false = rw u refl in
      let f : (not (policy.frames == 0) && ltb (counted h.underuse_frames) policy.frames) ≡ true =
        ground arith in
      rw (e, f) (ground arith)

  step-trims :
      (h : HostBuffers) (used : BytesUsed)
      → underused_bitstream policy h used ≡ true
      → policy.frames ≤ h.underuse_frames + 1
      → policy.frames ≤ uint32_max
      → (step h used).bitstream ≡ trimmed_if memalign policy true h.bitstream used.bitstream
  unfolding maybe_trim_context_host_buffers
  step-trims h used u late small =
      let e : not (any_underused policy h used) ≡ false = rw u refl in
      let f : (not (policy.frames == 0) && ltb (counted h.underuse_frames) policy.frames) ≡ false =
        ground arith in
      rw (e, f, u) refl

  row-trims :
      (h : HostBuffers) (pictures : List BytesUsed) (last : BytesUsed)
      → AllUnderused policy h pictures
      → underused_bitstream policy h last ≡ true
      → h.underuse_frames + length pictures + 1 ≡ policy.frames
      → policy.frames ≤ uint32_max
      → (trim_after_each memalign policy h (pictures ++ last ∷ [])).bitstream
        ≡ trimmed_if memalign policy true h.bitstream last.bitstream
  unfolding trim_after_each
  row-trims h [] last all u row small = step-trims h last u (omega (arith, row)) small
  row-trims h (used ∷ rest) last (v, all) u row small =
      let early : h.underuse_frames + 1 < policy.frames = omega (arith, row) in
      let s = (step-waits h used early).0 in
      let n = step-counts h used v early small in
      let later =
        row-trims (step h used) rest last
          (AllUnderused-congr policy h (step h used) rest s.bitstream all) (rw s.bitstream u)
          (omega (arith, n, row)) small in
      later ∙ ap (λ b. trimmed_if memalign policy true b last.bitstream) s.bitstream

-- Where the bitstream's block was far too large for `hostBufferTrimFrames` pictures in a row, fewer
-- than 2 ^ 32, between which nothing is appended, memalign never fails, and the block was before at
-- least as large as the size that hostBufferTrimTarget gives for the last picture, or as the bytes in
-- use where these are more: after the last picture the block has exactly that size.
pub trim_after_each-trims :
    (memalign : Memalign) (policy : TrimPolicy) (h : HostBuffers) (pictures : List BytesUsed)
    (last : BytesUsed)
    → IsAllocator memalign
    → AlwaysAllocates memalign
    → IsValid h.bitstream
    → AllUnderused policy h pictures
    → underused_bitstream policy h last ≡ true
    → h.underuse_frames + length pictures + 1 ≡ policy.frames
    → policy.frames ≤ uint32_max
    → max h.bitstream.size (host_buffer_trim_target last.bitstream policy.threshold)
      ≤ h.bitstream.allocated
    → (trim_after_each memalign policy h (pictures ++ last ∷ [])).bitstream.allocated
      ≡ max h.bitstream.size (host_buffer_trim_target last.bitstream policy.threshold)
unfolding trimmed_if
trim_after_each-trims memalign policy h pictures last alloc always v all u row small larger =
    let target = host_buffer_trim_target last.bitstream policy.threshold in
    let (b, e, t) = trim_buffer-Trimmed memalign alloc h.bitstream target v in
    let done = trim_buffer-succeeds memalign h.bitstream target always in
    let size : (trimmed_if memalign policy true h.bitstream last.bitstream).allocated
        ≡ max h.bitstream.size target =
      rw e (t.tight done larger) in
    ap (λ (b : AppendableBuffer). b.allocated)
      (row-trims memalign policy h pictures last all u row small)
    ∙ size
