-- ===== src/ColorMetadata.antt =====
-- src/vabackend.c: which colour matrix and which sample layout a conversion uses, and how colour
-- metadata goes from surface to backing image and back.
-- A pointer that may be NULL is an `Option`. A backing image stands with the metadata of the one
-- that it borrows from, if any. All coefficients are positive.
pub mod Types
pub mod Choice
mod Tests
use nvidia_vaapi_driver.Prelude.{ℕ, Option, none, some, Bool, true, false, ◌==◌, leb, if◌then◌else◌}
use nvidia_vaapi_driver.ColorMetadata.Types.*

-- nvColorStandardFromMatrixCoefficients
abbrev pub color_standard_from_matrix_coefficients : ℕ → ColorStandard
color_standard_from_matrix_coefficients n =
    if n == 1
    then bt709
    else if n == 4
    then bt470m
    else if n == 5
    then bt470bg
    else if n == 6
    then smpte170m
    else if n == 7
    then smpte240m
    else if n == 9
    then bt2020
    else standard_none

-- What `NVSurface` and `BackingImage` both keep.
pub record Metadata : Type 0 where
  pub color_standard : ColorStandard
  pub color_range_full : Bool

-- `BackingImage`: its own metadata, and that of its `borrowedBackingImage`.
pub record BackingImage : Type 0 where
  pub own : Metadata
  pub borrowed : Option Metadata

pub reset_color_metadata : Option Metadata → Option Metadata
reset_color_metadata none = none
reset_color_metadata (some surface) =
    some (record { color_standard = standard_none; color_range_full = false })

pub set_color_metadata : Option Metadata → ColorStandard → Bool → Option Metadata
set_color_metadata none standard full = none
set_color_metadata (some surface) standard full =
    some (record { color_standard = standard; color_range_full = full })

pub copy_color_metadata : Option Metadata → Option Metadata → Option Metadata
copy_color_metadata none src = none
copy_color_metadata (some dst) none = some dst
copy_color_metadata (some dst) (some src) = some src

-- constMetadataBackingImage
abbrev pub metadata_backing_image : Option BackingImage → Option Metadata
metadata_backing_image none = none
metadata_backing_image (some img) = elim img.borrowed [ none ↦ some img.own | some b ↦ some b ]

pub copy_color_metadata_from_backing_image : Option Metadata → Option BackingImage → Option Metadata
copy_color_metadata_from_backing_image surface img =
    copy_color_metadata surface (metadata_backing_image img)

abbrev write_metadata : BackingImage → Metadata → BackingImage
write_metadata img m = elim img.borrowed [
  | none ↦ record img { own = m }
  | some b ↦ record img { borrowed = some m }
]

-- nvBackingImageStoreSurfaceColorMetadata writes to the image that is borrowed from.
pub store_surface_color_metadata : Option BackingImage → Option Metadata → Option BackingImage
store_surface_color_metadata none surface = none
store_surface_color_metadata (some img) none = some img
store_surface_color_metadata (some img) (some surface) = some (write_metadata img surface)

-- nvBackingImageCopyColorMetadata writes to the image itself.
pub backing_image_copy_color_metadata :
    Option BackingImage → Option BackingImage → Option BackingImage
backing_image_copy_color_metadata none src = none
backing_image_copy_color_metadata (some dst) src = elim (metadata_backing_image src) [
  | none ↦ some dst
  | some m ↦ some (record dst { own = m })
]

pub record ColorMatrix : Type 0 where
  pub v_to_r : ℕ
  pub u_to_g : ℕ
  pub v_to_g : ℕ
  pub u_to_b : ℕ

abbrev pub matrix : ℕ → ℕ → ℕ → ℕ → ColorMatrix
matrix v_to_r u_to_g v_to_g u_to_b = record {
  v_to_r = v_to_r;
  u_to_g = u_to_g;
  v_to_g = v_to_g;
  u_to_b = u_to_b;
}

-- The rows of the two tables.
pub data Row : Type 0 where
  row_bt601 row_bt709 row_bt2020 : Row

abbrev pub limited_range_color_matrices : Row → ColorMatrix
limited_range_color_matrices row_bt601 = matrix 409 100 208 516
limited_range_color_matrices row_bt709 = matrix 459 55 136 541
limited_range_color_matrices row_bt2020 = matrix 430 48 167 548

abbrev pub full_range_color_matrices : Row → ColorMatrix
full_range_color_matrices row_bt601 = matrix 359 88 183 454
full_range_color_matrices row_bt709 = matrix 403 48 120 475
full_range_color_matrices row_bt2020 = matrix 377 42 146 482

abbrev pub matrix_row : ColorStandard → ℕ → Row
matrix_row bt601 width = row_bt601
matrix_row smpte170m width = row_bt601
matrix_row bt470m width = row_bt601
matrix_row bt470bg width = row_bt601
matrix_row bt709 width = row_bt709
matrix_row smpte240m width = row_bt709
matrix_row bt2020 width = row_bt2020
matrix_row other width = if leb 1280 width then row_bt709 else row_bt601

pub color_matrix_for_standard : ColorStandard → ℕ → Bool → ColorMatrix
color_matrix_for_standard standard width full_range =
    if full_range
    then full_range_color_matrices (matrix_row standard width)
    else limited_range_color_matrices (matrix_row standard width)

-- What the choice reads of `VAProcPipelineParameterBuffer`.
pub record Pipeline : Type 0 where
  pub surface_color_standard : ColorStandard
  pub matrix_coefficients : ℕ
  pub color_range : SourceRange

abbrev standard_of : Option Metadata → ColorStandard
standard_of none = standard_none
standard_of (some src) = src.color_standard

abbrev pub standard_for : ColorStandard → ℕ → Option Metadata → ColorStandard
standard_for explicit coefficients src = color_standard_from_matrix_coefficients coefficients
standard_for standard_none coefficients src = standard_of src
standard_for other coefficients src = other

pub effective_surface_color_standard : Option Metadata → Pipeline → ColorStandard
effective_surface_color_standard src p =
    standard_for p.surface_color_standard p.matrix_coefficients src

abbrev range_of : Option Metadata → Bool
range_of none = false
range_of (some src) = src.color_range_full

abbrev pub range_for : SourceRange → Option Metadata → Bool
range_for range_full src = true
range_for range_reduced src = false
range_for range_unknown src = range_of src

pub effective_surface_color_range_full : Option Metadata → Pipeline → Bool
effective_surface_color_range_full src p = range_for p.color_range src

pub record SampleInfo : Type 0 where
  pub sample_shift : ℕ
  pub y_scale : ℕ
  pub y_offset : ℕ
  pub uv_offset : ℕ
  pub rounding : ℕ
  pub value_shift : ℕ

abbrev layout : ℕ → ℕ → ℕ → ℕ → ℕ → ℕ → SampleInfo
layout sample_shift y_scale y_offset uv_offset rounding value_shift = record {
  sample_shift = sample_shift;
  y_scale = y_scale;
  y_offset = y_offset;
  uv_offset = uv_offset;
  rounding = rounding;
  value_shift = value_shift;
}

-- videoProcSampleInfoForFormat; `other_format` is the default of its switch.
pub sample_info_for_format : SampleFormat → Bool → SampleInfo
sample_info_for_format p010 full =
    layout 6 (if full then 256 else 298) (if full then 0 else 64) 512 512 10
sample_info_for_format p012 full =
    layout 4 (if full then 256 else 298) (if full then 0 else 256) 2048 2048 12
sample_info_for_format other full =
    layout 0 (if full then 256 else 298) (if full then 0 else 16) 128 128 8
