-- ===== src/Profiles/Tests.antt =====
-- The profiles offered on a GPU that decodes H.264 and HEVC with 8 and 10 bits.
use nvidia_vaapi_driver.Prelude.{◌≡◌, refl, [], ◌∷◌, true, false, leb}
use nvidia_vaapi_driver.Profiles.Types.{
  chroma_420, h264, h264_mvc, hevc, h264_main, h264_high, h264_constrained_baseline, hevc_main,
  hevc_main10, profile_none, success,
}
use nvidia_vaapi_driver.Profiles.{Gpu, query_config_profiles2, compact, offer}
use nvidia_vaapi_driver.Profiles.Offered.{Listed, query_config_profiles2-Listed}

abbrev small_gpu : Gpu
small_gpu h264 bit_depth chroma_420 = leb bit_depth 8
small_gpu h264_mvc bit_depth chroma_420 = leb bit_depth 8
small_gpu hevc bit_depth chroma_420 = leb bit_depth 10
small_gpu other bit_depth chroma_format = false

-- H.264 MVC is taken out again: no codec of the driver decodes it.
query_run : query_config_profiles2 true true small_gpu true true ≡ (
  success,
  h264_main ∷ h264_high ∷ h264_constrained_baseline ∷ hevc_main ∷ hevc_main10 ∷ profile_none ∷ [],
)
unfolding query_config_profiles2 compact offer
query_run = refl

query_config_profiles2-Listed_example :
    let r = query_config_profiles2 true true small_gpu true false in
    (r.0 ≡ success) × Listed small_gpu r.1
query_config_profiles2-Listed_example = query_config_profiles2-Listed true small_gpu true false
