-- ===== src/Profiles.antt =====
-- The profiles that the driver offers: `computeCudaCodec` of each codec (src/av1.c, src/h264.c,
-- src/hevc.c, src/jpeg.c, src/mpeg2.c, src/mpeg4.c, src/vc1.c, src/vp8.c, src/vp9.c), and from
-- src/vabackend.c `vaToCuCodec`, `profileDecodeTuple` and `nvQueryConfigProfiles2`, as built
-- against a libva of 1.20 or later. Whether the GPU decodes a format is a parameter.
pub mod Types
pub mod Offered
mod Tests
use nvidia_vaapi_driver.Prelude.{ℕ, List, [], ◌∷◌, ◌++◌, Bool, true, false, if◌then◌else◌}
use nvidia_vaapi_driver.Profiles.Types.*

abbrev pub compute_av1_cuda_codec : Profile → CudaCodec
compute_av1_cuda_codec av1_profile0 = av1
compute_av1_cuda_codec av1_profile1 = av1
compute_av1_cuda_codec other = no_codec

abbrev pub compute_h264_cuda_codec : Profile → CudaCodec
compute_h264_cuda_codec h264_constrained_baseline = h264
compute_h264_cuda_codec h264_main = h264
compute_h264_cuda_codec h264_high = h264
compute_h264_cuda_codec other = no_codec

abbrev pub compute_hevc_cuda_codec : Profile → CudaCodec
compute_hevc_cuda_codec hevc_main = hevc
compute_hevc_cuda_codec hevc_main10 = hevc
compute_hevc_cuda_codec hevc_main12 = hevc
compute_hevc_cuda_codec hevc_main444 = hevc
compute_hevc_cuda_codec hevc_main444_10 = hevc
compute_hevc_cuda_codec hevc_main444_12 = hevc
compute_hevc_cuda_codec other = no_codec

abbrev pub compute_jpeg_cuda_codec : Profile → CudaCodec
compute_jpeg_cuda_codec jpeg_baseline = jpeg
compute_jpeg_cuda_codec other = no_codec

abbrev pub compute_mpeg2_cuda_codec : Profile → CudaCodec
compute_mpeg2_cuda_codec mpeg2_main = mpeg2
compute_mpeg2_cuda_codec mpeg2_simple = mpeg2
compute_mpeg2_cuda_codec other = no_codec

abbrev pub compute_mpeg4_cuda_codec : Profile → CudaCodec
compute_mpeg4_cuda_codec h263_baseline = mpeg4
compute_mpeg4_cuda_codec mpeg4_main = mpeg4
compute_mpeg4_cuda_codec mpeg4_simple = mpeg4
compute_mpeg4_cuda_codec mpeg4_advanced_simple = mpeg4
compute_mpeg4_cuda_codec other = no_codec

abbrev pub compute_vc1_cuda_codec : Profile → CudaCodec
compute_vc1_cuda_codec vc1_advanced = vc1
compute_vc1_cuda_codec vc1_main = vc1
compute_vc1_cuda_codec vc1_simple = vc1
compute_vc1_cuda_codec other = no_codec

abbrev pub compute_vp8_cuda_codec : Profile → CudaCodec
compute_vp8_cuda_codec vp8_version0_3 = vp8
compute_vp8_cuda_codec other = no_codec

abbrev pub compute_vp9_cuda_codec : Profile → CudaCodec
compute_vp9_cuda_codec vp9_profile0 = vp9
compute_vp9_cuda_codec vp9_profile1 = vp9
compute_vp9_cuda_codec vp9_profile2 = vp9
compute_vp9_cuda_codec vp9_profile3 = vp9
compute_vp9_cuda_codec other = no_codec

abbrev pub is_no_codec : CudaCodec → Bool
is_no_codec no_codec = true
is_no_codec other = false

-- The loop of `vaToCuCodec` over the codecs.
abbrev pub first_codec : List (Profile → CudaCodec) → Profile → CudaCodec
first_codec [] p = no_codec
first_codec (compute ∷ rest) p = if is_no_codec (compute p) then first_codec rest p else compute p

-- In the order in which the linker places the codecs; no profile is claimed by two.
abbrev pub nvd_codecs : List (Profile → CudaCodec)
nvd_codecs =
    compute_av1_cuda_codec ∷ compute_h264_cuda_codec ∷ compute_hevc_cuda_codec
    ∷ compute_jpeg_cuda_codec ∷ compute_mpeg2_cuda_codec ∷ compute_mpeg4_cuda_codec
    ∷ compute_vc1_cuda_codec ∷ compute_vp8_cuda_codec ∷ compute_vp9_cuda_codec ∷ []

abbrev pub va_to_cu_codec : Profile → CudaCodec
va_to_cu_codec p = first_codec nvd_codecs p

-- `*bitDepth` and `*chromaFormat`
abbrev pub decode_format : Profile → ℕ × ChromaFormat
decode_format hevc_main10 = (10, chroma_420)
decode_format vp9_profile2 = (10, chroma_420)
decode_format hevc_main12 = (12, chroma_420)
decode_format hevc_main444 = (8, chroma_444)
decode_format vp9_profile1 = (8, chroma_444)
decode_format av1_profile1 = (8, chroma_444)
decode_format hevc_main444_10 = (10, chroma_444)
decode_format vp9_profile3 = (10, chroma_444)
decode_format hevc_main444_12 = (12, chroma_444)
decode_format other = (8, chroma_420)

-- The answer, the bit depth and the chroma format.
abbrev pub profile_decode_tuple : Profile → Bool × ℕ × ChromaFormat
profile_decode_tuple p =
    let (bit_depth, chroma_format) = decode_format p in
    (if is_no_codec (va_to_cu_codec p) then false else true, bit_depth, chroma_format)

-- `doesGPUSupportCodec`
abbrev pub Gpu : Type 0
Gpu = CudaCodec → ℕ → ChromaFormat → Bool

pub offer : Bool → List Profile → List Profile
offer supported profiles = if supported then profiles else []

abbrev pub base_profiles : Gpu → List Profile
base_profiles gpu =
    offer (gpu mpeg2 8 chroma_420) (mpeg2_simple ∷ mpeg2_main ∷ [])
    ++ offer (gpu mpeg4 8 chroma_420) (mpeg4_simple ∷ mpeg4_advanced_simple ∷ mpeg4_main ∷ [])
    ++ offer (gpu vc1 8 chroma_420) (vc1_simple ∷ vc1_main ∷ vc1_advanced ∷ [])
    ++ offer (gpu h264 8 chroma_420) (h264_main ∷ h264_high ∷ h264_constrained_baseline ∷ [])
    ++ offer (gpu jpeg 8 chroma_420) (jpeg_baseline ∷ [])
    ++ offer (gpu h264_svc 8 chroma_420) (h264_stereo_high ∷ [])
    ++ offer (gpu h264_mvc 8 chroma_420) (h264_multiview_high ∷ [])
    ++ offer (gpu hevc 8 chroma_420) (hevc_main ∷ [])
    ++ offer (gpu vp8 8 chroma_420) (vp8_version0_3 ∷ [])
    ++ offer (gpu vp9 8 chroma_420) (vp9_profile0 ∷ [])
    ++ offer (gpu av1 8 chroma_420) (av1_profile0 ∷ [])

abbrev pub deep_profiles : Gpu → List Profile
deep_profiles gpu =
    offer (gpu hevc 10 chroma_420) (hevc_main10 ∷ [])
    ++ offer (gpu hevc 12 chroma_420) (hevc_main12 ∷ [])
    ++ offer (gpu vp9 10 chroma_420) (vp9_profile2 ∷ [])

abbrev pub full_chroma_profiles : Gpu → List Profile
full_chroma_profiles gpu =
    offer (gpu hevc 8 chroma_444) (hevc_main444 ∷ [])
    ++ offer (gpu vp9 8 chroma_444) (vp9_profile1 ∷ [])
    ++ offer (gpu av1 8 chroma_444) (av1_profile1 ∷ [])

abbrev pub deep_full_chroma_profiles : Gpu → List Profile
deep_full_chroma_profiles gpu =
    offer (gpu hevc 10 chroma_444) (hevc_main444_10 ∷ [])
    ++ offer (gpu hevc 12 chroma_444) (hevc_main444_12 ∷ [])
    ++ offer (gpu vp9 10 chroma_444) (vp9_profile3 ∷ [])

-- The loop that takes out what no codec decodes: the entries before `i`, and those from `i` on.
pub compact : List Profile → List Profile → List Profile
compact kept [] = kept
compact kept (p ∷ rest) =
    let dropped = compact kept rest in
    let moved = compact (kept ++ p ∷ []) rest in
    if is_no_codec (va_to_cu_codec p) then dropped else moved

abbrev pub candidates : Gpu → Bool → Bool → List Profile
candidates gpu supports_16_bit_surface supports_444_surface =
    base_profiles gpu
    ++ offer supports_16_bit_surface (deep_profiles gpu)
    ++ offer supports_444_surface
        (full_chroma_profiles gpu ++ offer supports_16_bit_surface (deep_full_chroma_profiles gpu))

-- The status and what `profile_list` holds; `push_ok` and `pop_ok`: whether entering and leaving
-- the CUDA context succeed.
pub query_config_profiles2 : Bool → Bool → Gpu → Bool → Bool → VaStatus × List Profile
query_config_profiles2 push_ok pop_ok gpu supports_16_bit_surface supports_444_surface =
    if push_ok
    then (
      if pop_ok then success else operation_failed,
      compact [] (candidates gpu supports_16_bit_surface supports_444_surface) ++ profile_none ∷ [],
    )
    else (operation_failed, [])
