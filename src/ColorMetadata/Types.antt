-- ===== src/ColorMetadata/Types.antt =====
-- The enumerations of libva and of the driver that colour metadata is about.

-- `VAProcColorStandardType`
pub data ColorStandard : Type 0 where
  standard_none bt601 bt709 bt470m bt470bg smpte170m smpte240m generic_film : ColorStandard
  srgb strgb xvycc601 xvycc709 bt2020 explicit : ColorStandard

-- `NVFormat`, as far as the choice of a sample layout names it
pub data SampleFormat : Type 0 where
  nv12 p010 p012 other_format : SampleFormat

-- `VA_SOURCE_RANGE_UNKNOWN`, `VA_SOURCE_RANGE_REDUCED` and `VA_SOURCE_RANGE_FULL`
pub data SourceRange : Type 0 where
  range_unknown range_reduced range_full : SourceRange
