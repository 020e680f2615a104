-- ===== src/DecodeSurfaces.antt =====
-- src/decode-surfaces.c, and from src/vabackend.c its use for a new decoder
-- (`defaultDecodeSurfaceCount`, `selectContextDecodeSurfaceCount`; the statistics counter is left
-- out). All numbers are `uint32_t`.
pub mod Bounds
mod Tests
use nvidia_vaapi_driver.Prelude.{ℕ, Bool, ltb, ◌==◌, if◌then◌else◌}
use nvidia_vaapi_driver.Profiles.Types.{CudaCodec, h264, hevc, vp9, av1, jpeg}

abbrev pub max_u32 : ℕ → ℕ → ℕ
max_u32 left right = if ltb right left then left else right

pub select_decode_surface_count : ℕ → ℕ → ℕ → ℕ → ℕ → ℕ → ℕ
select_decode_surface_count codec_default reference_hint client_targets override_count minimum
      maximum =
    let lowest = if minimum == 0 then 1 else minimum in
    let highest = if ltb maximum lowest then lowest else maximum in
    let wanted =
      if override_count == 0
      then max_u32 (max_u32 codec_default reference_hint) client_targets
      else override_count in
    let raised = if ltb wanted lowest then lowest else wanted in
    if ltb highest raised then highest else raised

pub default_decode_surface_count : CudaCodec → ℕ
default_decode_surface_count h264 = 20
default_decode_surface_count hevc = 20
default_decode_surface_count vp9 = 10
default_decode_surface_count av1 = 32
default_decode_surface_count jpeg = 2
default_decode_surface_count other = 8

-- What `selectContextDecodeSurfaceCount` reads of the context and of its driver.
pub record Settings : Type 0 where
  pub cuda_codec : CudaCodec
  pub decode_surface_reference_hint : ℕ
  pub client_render_target_count : ℕ
  pub decode_surfaces_minimum : ℕ
  pub decode_surfaces_maximum : ℕ
  pub decode_surfaces_override : ℕ
  pub decode_surfaces_auto : Bool

abbrev pub automatic_count : Settings → ℕ
automatic_count s =
    select_decode_surface_count (default_decode_surface_count s.cuda_codec)
      s.decode_surface_reference_hint s.client_render_target_count 0 s.decode_surfaces_minimum
      s.decode_surfaces_maximum

pub select_context_decode_surface_count : Settings → ℕ
select_context_decode_surface_count s =
    if s.decode_surfaces_auto
    then automatic_count s
    else select_decode_surface_count (automatic_count s) 0 0
        (if s.decode_surfaces_override == 0 then 32 else s.decode_surfaces_override)
        s.decode_surfaces_minimum s.decode_surfaces_maximum
