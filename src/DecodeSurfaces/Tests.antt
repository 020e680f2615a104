-- ===== src/DecodeSurfaces/Tests.antt =====
-- The count of decode surfaces at concrete settings.
use nvidia_vaapi_driver.Prelude.{◌≡◌, refl, true}
use nvidia_vaapi_driver.Profiles.Types.{hevc}
use nvidia_vaapi_driver.DecodeSurfaces.{
  Settings, select_context_decode_surface_count, select_decode_surface_count,
  default_decode_surface_count,
}
use nvidia_vaapi_driver.DecodeSurfaces.Bounds.{Fits, select_context-Fits}

abbrev automatic_hevc : Settings
automatic_hevc = record {
  cuda_codec = hevc;
  decode_surface_reference_hint = 18;
  client_render_target_count = 24;
  decode_surfaces_minimum = 4;
  decode_surfaces_maximum = 32;
  decode_surfaces_override = 0;
  decode_surfaces_auto = true;
}

automatic_run : select_context_decode_surface_count automatic_hevc ≡ 24
unfolding select_context_decode_surface_count select_decode_surface_count
    default_decode_surface_count
automatic_run = refl

select_context-Fits_example :
    Fits automatic_hevc (select_context_decode_surface_count automatic_hevc)
select_context-Fits_example = select_context-Fits automatic_hevc
