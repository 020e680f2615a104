-- ===== src/Profiles/Types.antt =====
-- Values of libva and of the CUDA headers that the choice of profiles names.
-- `VAProfile`, as far as the code names it, and a value for all the others.
pub data Profile : Type 0 where
  profile_none mpeg2_simple mpeg2_main mpeg4_simple mpeg4_advanced_simple mpeg4_main : Profile
  vc1_simple vc1_main vc1_advanced h263_baseline : Profile
  h264_main h264_high h264_constrained_baseline h264_stereo_high h264_multiview_high : Profile
  jpeg_baseline vp8_version0_3 : Profile
  hevc_main hevc_main10 hevc_main12 hevc_main444 hevc_main444_10 hevc_main444_12 : Profile
  vp9_profile0 vp9_profile1 vp9_profile2 vp9_profile3 av1_profile0 av1_profile1 : Profile
  another_profile : Profile

-- `cudaVideoCodec`, as far as the code names it.
pub data CudaCodec : Type 0 where
  no_codec mpeg1 mpeg2 mpeg4 vc1 h264 jpeg h264_svc h264_mvc hevc vp8 vp9 av1 : CudaCodec

pub data ChromaFormat : Type 0 where
  chroma_420 chroma_444 : ChromaFormat

-- `VAStatus`, as far as `nvQueryConfigProfiles2` answers it
pub data VaStatus : Type 0 where
  success operation_failed : VaStatus
