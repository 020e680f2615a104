-- ===== src/ColorMetadata/Tests.antt =====
-- Colour metadata of concrete surfaces.
use nvidia_vaapi_driver.Prelude.{◌≡◌, refl, none, some, true, false}
use nvidia_vaapi_driver.ColorMetadata.Types.{
  bt2020, bt470bg, standard_none, explicit, p010, range_unknown,
}
use nvidia_vaapi_driver.ColorMetadata.{
  Metadata, BackingImage, Pipeline, copy_color_metadata_from_backing_image,
  store_surface_color_metadata, backing_image_copy_color_metadata, reset_color_metadata,
  set_color_metadata, sample_info_for_format, color_matrix_for_standard, matrix,
  effective_surface_color_standard, effective_surface_color_range_full,
}
use nvidia_vaapi_driver.ColorMetadata.Choice.{copy-store_lem}

abbrev hdr : Metadata
hdr = record { color_standard = bt2020; color_range_full = true }

abbrev plain : Metadata
plain = record { color_standard = standard_none; color_range_full = false }

abbrev borrower : BackingImage
borrower = record { own = plain; borrowed = some plain }

copy-store_lem_example :
    copy_color_metadata_from_backing_image
      (some plain)
      (store_surface_color_metadata (some borrower) (some hdr))
    ≡ some hdr
copy-store_lem_example = copy-store_lem borrower hdr plain

reset_run : reset_color_metadata (set_color_metadata (some plain) bt2020 true) ≡ some plain
unfolding reset_color_metadata set_color_metadata
reset_run = refl

-- The copy from image to image does not go through to the image that is borrowed from.
image_copy_run :
    backing_image_copy_color_metadata (some borrower) (some (record { own = hdr; borrowed = none }))
    ≡ some (record { own = hdr; borrowed = some plain })
unfolding backing_image_copy_color_metadata
image_copy_run = refl

matrix_run : color_matrix_for_standard standard_none 1920 false ≡ matrix 459 55 136 541
unfolding color_matrix_for_standard
matrix_run = refl

abbrev pipeline : Pipeline
pipeline = record {
  surface_color_standard = explicit;
  matrix_coefficients = 5;
  color_range = range_unknown;
}

standard_run : effective_surface_color_standard (some hdr) pipeline ≡ bt470bg
unfolding effective_surface_color_standard
standard_run = refl

range_run : effective_surface_color_range_full (some hdr) pipeline ≡ true
unfolding effective_surface_color_range_full
range_run = refl

sample_run : sample_info_for_format p010 false ≡ record {
  sample_shift = 6;
  y_scale = 298;
  y_offset = 64;
  uv_offset = 512;
  rounding = 512;
  value_shift = 10;
}
unfolding sample_info_for_format
sample_run = refl
