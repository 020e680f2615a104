-- ===== src/SurfaceImport/Tests.antt =====
-- src/surface-import.c at concrete inputs.
use nvidia_vaapi_driver.Prelude.{◌≡◌, refl, some, List, [], ◌∷◌, true, ◌==◌, if◌then◌else◌}
use nvidia_vaapi_driver.SurfaceImport.{
  Constants, parse_prime_descriptor, parse_prime2_descriptor, fill_legacy, Attribute, memory_type,
  external_descriptor, integer, pointer, ExternalBuffers, PrimeDescriptor, ImportedSurface,
  parse_surface_import_attributes, imported_surface_select_index,
}
use nvidia_vaapi_driver.SurfaceImport.Prime.{IsUsable}
use nvidia_vaapi_driver.SurfaceImport.Selection.{parse-IsUsable, Selected, select-Selected}

-- The values of libva and of drm_fourcc.h.
abbrev libva : Constants
libva = record {
  mem_type_drm_prime = 0x20000000;
  mem_type_drm_prime_2 = 0x40000000;
  enable_tiling = 1;
  modifier_linear = 0;
  modifier_invalid = 0x00ff_ffff_ffff_ffff;
}

-- Two surfaces of two planes each, in the file descriptors 7 and 8.
abbrev two_buffers : ExternalBuffers
two_buffers = record {
  pixel_format = 0x3231564e;
  width = 64;
  height = 32;
  data_size = 3072;
  num_planes = 2;
  pitches = λ i. 64;
  offsets = λ i. if i == 0 then 0 else 2048;
  buffers = some (λ i. if i == 0 then 7 else 8);
  num_buffers = 2;
  flags = 0;
}

abbrev one_layer : PrimeDescriptor
one_layer = record {
  fourcc = 0x3231564e;
  width = 64;
  height = 32;
  num_objects = 1;
  objects = λ i. record { fd = some 5; size = 3072; modifier = 0 };
  num_layers = 1;
  layers = λ i. record { num_planes = 2; object_index = λ j. 0; offset = λ j. 0; pitch = λ j. 64 };
}

abbrev described : List Attribute
described =
    memory_type (integer 0x20000000)
    ∷ external_descriptor (pointer (some (record { external = two_buffers; prime = one_layer })))
    ∷ []

abbrev second_kind : List Attribute
second_kind =
    memory_type (integer 0x40000000)
    ∷ external_descriptor (pointer (some (record { external = two_buffers; prime = one_layer })))
    ∷ []

abbrev parsed : ImportedSurface
parsed = parse_surface_import_attributes libva (some described)

second_kind_valid : (parse_surface_import_attributes libva (some second_kind)).valid ≡ true
unfolding parse_surface_import_attributes parse_prime2_descriptor
second_kind_valid = refl

parse-IsUsable_example : IsUsable parsed
unfolding parse_surface_import_attributes parse_prime_descriptor fill_legacy
parse-IsUsable_example = parse-IsUsable libva described refl

parsed-IsUsable : IsUsable parsed
unfolding parse_surface_import_attributes parse_prime_descriptor fill_legacy
parsed-IsUsable = parse-IsUsable libva described refl

select-Selected_example : Selected parsed 1 2 (imported_surface_select_index (some parsed) 1 2 true)
unfolding parse_surface_import_attributes parse_prime_descriptor fill_legacy
select-Selected_example = select-Selected parsed 1 2 refl parsed-IsUsable
