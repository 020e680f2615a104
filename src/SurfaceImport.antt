-- ===== src/SurfaceImport.antt =====
-- src/surface-import.c: the checks on the descriptors of surfaces that a client imports.
-- The descriptors of libva are read by their fields; an array is a function of the index. A pointer
-- to a descriptor of unknown type is what its memory reads as under each type. The constants of
-- libva and of drm_fourcc.h are an argument. A file descriptor is `none` where it is negative.
pub mod Prime
pub mod Prime2
pub mod Selection
mod Tests
use nvidia_vaapi_driver.Prelude.{
  ℕ, zero, suc, ◌+◌, ◌-◌, ◌%◌, ◌^◌, Option, none, some, List, [], ◌∷◌, Bool, true, false, ◌||◌,
  ◌&&◌, not, ltb, leb, ◌==◌, if◌then◌else◌, size_max, uint32_max,
}
use Prim.Native.Nat.{bit_and}
use nvidia_vaapi_driver.AppendableBuffer.{is_null}

abbrev pub max_imported_objects : ℕ
max_imported_objects = 4

abbrev pub max_imported_planes : ℕ
max_imported_planes = 4

abbrev pub max_legacy_surface_buffers : ℕ
max_legacy_surface_buffers = 1024

abbrev pub int_max : ℕ
int_max = 2 ^ 31 - 1

pub record Constants : Type 0 where
  pub mem_type_drm_prime : ℕ
  pub mem_type_drm_prime_2 : ℕ
  pub enable_tiling : ℕ
  pub modifier_linear : ℕ
  pub modifier_invalid : ℕ

pub record ImportedObject : Type 0 where
  pub fd : Option ℕ
  pub size : ℕ
  pub modifier : ℕ

pub record ImportedPlane : Type 0 where
  pub object_index : ℕ
  pub offset : ℕ
  pub pitch : ℕ

pub record ImportedSurface : Type 0 where
  pub requested : Bool
  pub valid : Bool
  pub legacy_prime : Bool
  pub memory_type : ℕ
  pub pixel_format : ℕ
  pub width : ℕ
  pub height : ℕ
  pub data_size : ℕ
  pub num_objects : ℕ
  pub num_planes : ℕ
  pub legacy_buffers : Option (ℕ → ℕ)
  pub num_legacy_buffers : ℕ
  pub objects : ℕ → ImportedObject
  pub planes : ℕ → ImportedPlane

-- The fields of `VASurfaceAttribExternalBuffers`.
pub record ExternalBuffers : Type 0 where
  pub pixel_format : ℕ
  pub width : ℕ
  pub height : ℕ
  pub data_size : ℕ
  pub num_planes : ℕ
  pub pitches : ℕ → ℕ
  pub offsets : ℕ → ℕ
  pub buffers : Option (ℕ → ℕ)
  pub num_buffers : ℕ
  pub flags : ℕ

pub record PrimeLayer : Type 0 where
  pub num_planes : ℕ
  pub object_index : ℕ → ℕ
  pub offset : ℕ → ℕ
  pub pitch : ℕ → ℕ

-- The fields of `VADRMPRIMESurfaceDescriptor`.
pub record PrimeDescriptor : Type 0 where
  pub fourcc : ℕ
  pub width : ℕ
  pub height : ℕ
  pub num_objects : ℕ
  pub objects : ℕ → ImportedObject
  pub num_layers : ℕ
  pub layers : ℕ → PrimeLayer

pub record Descriptor : Type 0 where
  pub external : ExternalBuffers
  pub prime : PrimeDescriptor

-- `VASurfaceAttrib`, by its type and the type of its value; an integer is its 32 bits.
pub data Value : Type 0 where
  integer : ℕ → Value
  pointer : Option Descriptor → Value
  other_value : Value

pub data Attribute : Type 0 where
  memory_type pixel_format external_descriptor other_attribute : Value → Attribute

abbrev pub update {ℓ} : {A : Type ℓ} → (ℕ → A) → ℕ → A → ℕ → A
update f i a j = if i == j then a else f j

module _ (k : Constants) where
  -- importedSurfaceInit
  pub imported_surface_init : ImportedSurface
  imported_surface_init = record {
    requested = false;
    valid = false;
    legacy_prime = false;
    memory_type = 0;
    pixel_format = 0;
    width = 0;
    height = 0;
    data_size = 0;
    num_objects = 0;
    num_planes = 0;
    legacy_buffers = none;
    num_legacy_buffers = 0;
    objects = λ i. record { fd = none; size = 0; modifier = k.modifier_invalid };
    planes = λ i. record { object_index = 0; offset = 0; pitch = 0 };
  }

pub add_object_size : ImportedSurface → ℕ → Bool × ImportedSurface
add_object_size s size =
    if ltb (size_max - s.data_size) size
    then (false, s)
    else (true, record s { data_size = (s.data_size + size) % 2 ^ 64 })

-- The loop over the legacy buffers from `i` on, with the rounds left: whether all fit an `int`.
pub all_descriptors : ℕ → ℕ → (ℕ → ℕ) → Bool
all_descriptors zero i buffers = true
all_descriptors (suc rounds) i buffers =
    let later = all_descriptors rounds (i + 1) buffers in
    if ltb int_max (buffers i) then false else later

-- The loop over the planes of the one object.
pub legacy_planes : ℕ → ℕ → ExternalBuffers → (ℕ → ImportedPlane) → ℕ → ImportedPlane
legacy_planes zero i ext planes = planes
legacy_planes (suc rounds) i ext planes =
    legacy_planes rounds (i + 1) ext
      (update planes i (record { object_index = 0; offset = ext.offsets i; pitch = ext.pitches i }))

module _ (k : Constants) where
  -- From the buffers on.
  pub fill_legacy : ExternalBuffers → ImportedSurface → Option (ℕ → ℕ) → ImportedSurface
  unfolding all_descriptors legacy_planes
  fill_legacy ext s none = s
  fill_legacy ext s (some buffers) =
      if not (all_descriptors s.num_legacy_buffers 0 buffers) then s else record s {
        objects =
            update s.objects 0 (record {
              fd = some (buffers 0);
              size = ext.data_size;
              modifier = k.modifier_linear;
            });
        planes = legacy_planes s.num_planes 0 ext s.planes;
        valid = true;
      }

  abbrev pub legacy_header : ExternalBuffers → ImportedSurface → ImportedSurface
  legacy_header ext s = record s {
    pixel_format = if ext.pixel_format == 0 then s.pixel_format else ext.pixel_format;
    width = ext.width;
    height = ext.height;
    data_size = ext.data_size;
    num_planes = ext.num_planes;
    num_objects = 1;
    legacy_prime = true;
    legacy_buffers = ext.buffers;
    num_legacy_buffers = ext.num_buffers;
  }

  abbrev pub legacy_refused : ExternalBuffers → Bool
  legacy_refused ext =
      ext.num_planes == 0
      || ltb max_imported_planes ext.num_planes
      || ext.num_buffers == 0
      || ltb max_legacy_surface_buffers ext.num_buffers
      || is_null ext.buffers
      || not (bit_and ext.flags k.enable_tiling == 0)

  pub parse_prime_descriptor : ExternalBuffers → ImportedSurface → ImportedSurface
  parse_prime_descriptor ext s =
      let headed = legacy_header ext s in
      if legacy_refused ext then headed else fill_legacy ext headed ext.buffers

-- The loop over the objects from `i` on; false is an early return.
pub add_objects : ℕ → ℕ → PrimeDescriptor → ImportedSurface → Bool × ImportedSurface
add_objects zero i desc s = (true, s)
add_objects (suc rounds) i desc s =
    let (added, s') = add_object_size s (desc.objects i).size in
    let rest =
      add_objects rounds (i + 1) desc
        (record s' { objects = update s'.objects i (desc.objects i) }) in
    if is_null (desc.objects i).fd then (false, s) else if not added then (false, s') else rest

-- The loop over the planes of a layer from `plane` on; `index` counts the planes of all layers.
pub add_planes : ℕ → ℕ → PrimeLayer → ℕ → ImportedSurface → Bool × ℕ × ImportedSurface
add_planes zero plane layer index s = (true, index, s)
add_planes (suc rounds) plane layer index s =
    let filled : ImportedPlane = record {
      object_index = layer.object_index plane;
      offset = layer.offset plane;
      pitch = layer.pitch plane;
    } in
    let rest =
      add_planes rounds (plane + 1) layer (index + 1)
        (record s { planes = update s.planes index filled }) in
    if leb max_imported_planes index || leb s.num_objects (layer.object_index plane)
    then (false, index, s)
    else rest

-- The loop over the layers.
pub add_layers : ℕ → ℕ → PrimeDescriptor → ℕ → ImportedSurface → Bool × ℕ × ImportedSurface
unfolding add_planes
add_layers zero layer desc index s = (true, index, s)
add_layers (suc rounds) layer desc index s =
    let l = desc.layers layer in
    let (done, index', s') = add_planes l.num_planes 0 l index s in
    let rest = add_layers rounds (layer + 1) desc index' s' in
    if l.num_planes == 0 || ltb 4 l.num_planes
    then (false, index, s)
    else if not done
    then (false, index', s')
    else rest

abbrev pub prime2_header : PrimeDescriptor → ImportedSurface → ImportedSurface
prime2_header desc s = record s {
  pixel_format = desc.fourcc;
  width = desc.width;
  height = desc.height;
  num_objects = desc.num_objects;
}

abbrev pub prime2_refused : PrimeDescriptor → Bool
prime2_refused desc =
    desc.num_layers == 0
    || ltb 4 desc.num_layers
    || desc.num_objects == 0
    || ltb max_imported_objects desc.num_objects

abbrev pub finish_planes : Bool × ℕ × ImportedSurface → ImportedSurface
finish_planes (false, index, s) = s
finish_planes (true, index, s) = record s { num_planes = index; valid = ltb 0 index }

abbrev pub planes_of : PrimeDescriptor → Bool × ImportedSurface → ImportedSurface
planes_of desc (false, s) = s
planes_of desc (true, s) = finish_planes (add_layers desc.num_layers 0 desc 0 s)

pub parse_prime2_descriptor : PrimeDescriptor → ImportedSurface → ImportedSurface
unfolding add_layers add_objects add_object_size
parse_prime2_descriptor desc s =
    let headed = prime2_header desc s in
    if prime2_refused desc
    then headed
    else planes_of desc (add_objects desc.num_objects 0 desc headed)

-- One attribute of the list; the pointer is the one of the last external descriptor.
abbrev pub read_attribute :
    Attribute → Option Descriptor × ImportedSurface → Option Descriptor × ImportedSurface
read_attribute (memory_type (integer i)) (d, s) = (d, record s { memory_type = i % 2 ^ 32 })
read_attribute (external_descriptor (pointer p)) (d, s) = (p, s)
read_attribute (pixel_format (integer i)) (d, s) = (d, record s { pixel_format = i % 2 ^ 32 })
read_attribute _ r = r

pub read_attributes :
    List Attribute → Option Descriptor × ImportedSurface → Option Descriptor × ImportedSurface
read_attributes [] r = r
read_attributes (a ∷ rest) r = read_attributes rest (read_attribute a r)

module _ (k : Constants) where
  pub parse_descriptor : Option Descriptor × ImportedSurface → ImportedSurface
  parse_descriptor (none, s) = s
  parse_descriptor (some d, s) =
      let s' = record s { requested = true } in
      if not (bit_and s.memory_type k.mem_type_drm_prime_2 == 0)
      then parse_prime2_descriptor d.prime s'
      else if not (bit_and s.memory_type k.mem_type_drm_prime == 0)
      then parse_prime_descriptor k d.external s'
      else s'

  -- `none` is a NULL list.
  pub parse_surface_import_attributes : Option (List Attribute) → ImportedSurface
  unfolding imported_surface_init read_attributes parse_descriptor
  parse_surface_import_attributes none = imported_surface_init k
  parse_surface_import_attributes (some attribs) =
      parse_descriptor (read_attributes attribs (none, imported_surface_init k))

abbrev pub legacy_buffer : Option (ℕ → ℕ) → ℕ → ℕ
legacy_buffer none i = 0
legacy_buffer (some buffers) i = buffers i

-- The copy for the surface `index`, and its own file descriptor. The caller's structure after the
-- call is `none` where nothing was written to it.
pub select_index : ImportedSurface → ℕ → ℕ → Bool × Option ImportedSurface
select_index s index num_surfaces =
    if not s.valid || leb num_surfaces index
    then (false, none)
    else if not s.legacy_prime
    then (num_surfaces == 1, some s)
    else if not (s.num_legacy_buffers == num_surfaces)
        || ltb int_max (legacy_buffer s.legacy_buffers index)
    then (false, some s)
    else (
      true,
      some (record s {
        objects =
            update s.objects 0
              (record (s.objects 0) { fd = some (legacy_buffer s.legacy_buffers index) });
      }),
    )

-- importedSurfaceSelectIndex: the first `none` is a NULL surface; `false` a NULL `selected`.
pub imported_surface_select_index :
    Option ImportedSurface → ℕ → ℕ → Bool → Bool × Option ImportedSurface
unfolding select_index
imported_surface_select_index none index num_surfaces selected = (false, none)
imported_surface_select_index (some s) index num_surfaces selected =
    if not selected then (false, none) else select_index s index num_surfaces
