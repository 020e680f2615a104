-- ===== src/HostBuffers/Tests.antt =====
-- A context whose bitstream has a block of 8192 bytes for pictures of a hundred.
use nvidia_vaapi_driver.Prelude.{
  ℕ, ◌≡◌, refl, none, some, [], ◌∷◌, ◌++◌, false, replicate, length-replicate, arith,
}
use Prim.Native.Nat.{max}
use nvidia_vaapi_driver.AppendableBuffer.{AppendableBuffer, Memalign}
use nvidia_vaapi_driver.AppendableBuffer.Laws.{IsValid, IsAllocator}
use nvidia_vaapi_driver.AppendableBuffer.Trim.{AlwaysAllocates}
use nvidia_vaapi_driver.HostBuffers.{
  TrimPolicy, HostBuffers, BytesUsed, host_buffer_trim_target, maybe_trim_context_host_buffers,
}
use nvidia_vaapi_driver.HostBuffers.Trimming.{AreTrimmed, maybe_trim-AreTrimmed}
use nvidia_vaapi_driver.HostBuffers.Timing.{
  trim_after_each, SameBuffers, trim_after_each-waits, trim_after_each-trims,
}

-- Every block comes filled with zeros.
zeros : Memalign
zeros n = some (replicate n 0)

zeros-IsAllocator : IsAllocator zeros
unfolding zeros
zeros-IsAllocator n m e = let q : replicate n 0 ≡ m = cc in rw (← q) (length-replicate n 0)

zeros-AlwaysAllocates : AlwaysAllocates zeros
unfolding zeros
zeros-AlwaysAllocates n = (replicate n 0, refl)

abbrev empty : AppendableBuffer
empty = record { buf = none; size = 0; allocated = 0; failed = false }

empty-IsValid : IsValid empty
empty-IsValid = record { block = refl; fits = omega arith; small = omega arith }

abbrev large : AppendableBuffer
large = record { buf = some (replicate 8192 0); size = 0; allocated = 8192; failed = false }

large-IsValid : IsValid large
large-IsValid = record {
  block = length-replicate {A = ℕ} 8192 0;
  fits = omega arith;
  small = omega arith;
}

abbrev buffers : HostBuffers
buffers = record { bitstream = large; offsets = empty; params = empty; underuse_frames = 0 }

abbrev policy : TrimPolicy
policy = record { threshold = 4096; frames = 2 }

abbrev hundred : BytesUsed
hundred = record { bitstream = 100; offsets = 0; params = 0 }

maybe_trim-AreTrimmed_example :
    AreTrimmed buffers hundred (maybe_trim_context_host_buffers zeros policy buffers hundred)
maybe_trim-AreTrimmed_example =
    maybe_trim-AreTrimmed zeros zeros-IsAllocator policy buffers hundred
      (record { bitstream = large-IsValid; offsets = empty-IsValid; params = empty-IsValid })

trim_after_each-waits_example :
    SameBuffers buffers (trim_after_each zeros policy buffers (hundred ∷ []))
trim_after_each-waits_example =
    trim_after_each-waits zeros policy buffers (hundred ∷ []) (omega arith)

trim_after_each-trims_example :
    (trim_after_each zeros policy buffers (hundred ∷ [] ++ hundred ∷ [])).bitstream.allocated
    ≡ max 0 (host_buffer_trim_target 100 4096)
trim_after_each-trims_example =
    trim_after_each-trims zeros policy buffers (hundred ∷ []) hundred zeros-IsAllocator
      zeros-AlwaysAllocates large-IsValid (refl, tt) refl refl (omega arith) (omega arith)
