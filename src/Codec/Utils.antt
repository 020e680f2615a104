-- ===== src/Codec/Utils.antt =====
-- src/codec-utils.c: the checks between what a client sends and the bitstream.
-- A pointer argument that may be NULL is an `Option`; `ptr` is the memory from the pointer on.
pub mod Ranges
pub mod Vp8Header
mod Tests
use nvidia_vaapi_driver.Prelude.{
  ℕ, ◌+◌, ◌-◌, ◌*◌, ◌/◌, ◌%◌, ◌^◌, Option, none, some, List, [], ◌∷◌, ◌++◌, Bool, true, false, ◌||◌,
  ◌&&◌, not, ltb, leb, ◌==◌, if◌then◌else◌, drop, size_max, uint32_max, add32, mul64,
}
use Prim.Native.Nat.{bit_or}
use nvidia_vaapi_driver.AppendableBuffer.{AppendableBuffer, is_null}

-- `NVBuffer`
pub record VaBuffer : Type 0 where
  pub elements : ℕ
  pub element_size : ℕ
  pub size : ℕ
  pub ptr : Option (List ℕ)

-- One `VASliceParameterBuffer…` of any codec: the range of the slice data buffer that it names.
pub record SliceParam : Type 0 where
  pub slice_data_offset : ℕ
  pub slice_data_size : ℕ

-- `NVContext`, as far as the slice handlers read and write it.
pub record Context : Type 0 where
  pub input_validation_failed : Bool
  pub last_slice_params : List SliceParam
  pub last_slice_params_count : ℕ
  pub bitstream_buffer : AppendableBuffer
  pub slice_offsets : AppendableBuffer

-- `CUVIDPICPARAMS`, as far as every codec writes it.
pub record PicParams : Type 0 where
  pub num_slices : ℕ
  pub bitstream_data_len : ℕ

abbrev pub reject : Context → Context
reject ctx = record ctx { input_validation_failed = true }

abbrev reject_if_any : Option Context → Option Context
reject_if_any none = none
reject_if_any (some ctx) = some (reject ctx)

abbrev pub data_at : Option (List ℕ) → ℕ → Option (List ℕ)
data_at none offset = none
data_at (some m) offset = some (drop offset m)

-- The test of nvValidateSliceRange on a buffer.
abbrev range_refused : Option VaBuffer → ℕ → ℕ → Bool
range_refused none offset size = true
range_refused (some buffer) offset size =
    is_null buffer.ptr || ltb buffer.size offset || ltb (buffer.size - offset) size

abbrev ptr_of : Option VaBuffer → Option (List ℕ)
ptr_of none = none
ptr_of (some buffer) = buffer.ptr

-- The answer, the context, and what goes through `data`.
pub validate_slice_range :
    Option Context → Option VaBuffer → ℕ → ℕ → Bool × Option Context × Option (List ℕ)
validate_slice_range ctx buffer offset size =
    if is_null ctx || range_refused buffer offset size
    then (false, reject_if_any ctx, none)
    else (true, ctx, data_at (ptr_of buffer) offset)

add_slices : Option Context → PicParams → ℕ → Bool × Option Context × PicParams
add_slices ctx pic count =
    if is_null ctx || ltb uint32_max count || ltb (uint32_max - pic.num_slices) count
    then (false, reject_if_any ctx, pic)
    else (true, ctx, record pic { num_slices = add32 pic.num_slices count })

pub add_cuvid_slices :
    Option Context → Option PicParams → ℕ → Bool × Option Context × Option PicParams
unfolding add_slices
add_cuvid_slices ctx none count = (false, reject_if_any ctx, none)
add_cuvid_slices ctx (some pic) count =
    let (done, ctx', pic') = add_slices ctx pic count in (done, ctx', some pic')

pub can_append_bitstream : Option Context → ℕ → Bool × Option Context
can_append_bitstream none additional = (false, none)
can_append_bitstream (some ctx) additional =
    let size = ctx.bitstream_buffer.size in
    if ltb uint32_max size || ltb (uint32_max - size) additional
    then (false, some (reject ctx))
    else (true, some ctx)

pub commit_bitstream_length :
    Option Context → Option PicParams → Bool × Option Context × Option PicParams
commit_bitstream_length none pic = (false, none, pic)
commit_bitstream_length (some ctx) none = (false, some (reject ctx), none)
commit_bitstream_length (some ctx) (some pic) =
    if ltb uint32_max ctx.bitstream_buffer.size then (false, some (reject ctx), some pic) else (
      true,
      some ctx,
      some (record pic { bitstream_data_len = ctx.bitstream_buffer.size % 2 ^ 32 }),
    )

-- `BufferSchema`; a `max_elements` of 0 is no maximum.
pub record BufferSchema : Type 0 where
  pub min_element_size : ℕ
  pub min_elements : ℕ
  pub max_elements : ℕ

pub validate_buffer_schema : Option VaBuffer → Option BufferSchema → Bool
validate_buffer_schema none schema = false
validate_buffer_schema (some b) none = false
validate_buffer_schema (some b) (some s) = not (
    s.min_element_size == 0
    || ltb b.elements s.min_elements
    || (not (s.max_elements == 0) && ltb s.max_elements b.elements)
    || ltb b.element_size s.min_element_size
    || (not (b.elements == 0) && ltb (size_max / b.elements) b.element_size)
    || not (b.size == mul64 b.element_size b.elements)
    || (not (b.size == 0) && is_null b.ptr))

abbrev pub bool_to_nat : Bool → ℕ
bool_to_nat true = 1
bool_to_nat false = 0

-- The 32-bit frame tag; `<<` keeps the low 32 bits.
abbrev pub frame_tag : Bool → ℕ → Bool → ℕ → ℕ
frame_tag key_frame version show_frame first_partition_size =
    bit_or
      (bit_or (bit_or (if key_frame then 0 else 1) (version * 2 % 2 ^ 32))
        (bool_to_nat show_frame * 2 ^ 4 % 2 ^ 32))
      (first_partition_size * 2 ^ 5 % 2 ^ 32)

abbrev low_byte : ℕ → ℕ
low_byte n = n % 2 ^ 8

-- The bytes that start every header, and those that a key frame adds.
abbrev pub tag_bytes : ℕ → List ℕ
tag_bytes tag = low_byte tag ∷ low_byte (tag / 2 ^ 8) ∷ low_byte (tag / 2 ^ 16) ∷ []

abbrev pub key_frame_bytes : ℕ → ℕ → List ℕ
key_frame_bytes width height =
    0x9d
    ∷ 0x01
    ∷ 0x2a
    ∷ low_byte width
    ∷ low_byte (width / 2 ^ 8)
    ∷ low_byte height
    ∷ low_byte (height / 2 ^ 8)
    ∷ []

-- The number of bytes written, and the caller's ten bytes after the call.
pub build_vp8_frame_header : Option (List ℕ) → Bool → ℕ → Bool → ℕ → ℕ → ℕ → ℕ × Option (List ℕ)
build_vp8_frame_header none key_frame version show_frame first_partition_size width height =
    (0, none)
build_vp8_frame_header (some m) key_frame version show_frame first_partition_size width height =
    if ltb 7 version
      || ltb 0x7ffff first_partition_size
      || (key_frame && (ltb 0x3fff width || ltb 0x3fff height))
    then (0, some m)
    else let start = tag_bytes (frame_tag key_frame version show_frame first_partition_size) in
      if not key_frame
      then (3, some (start ++ drop 3 m))
      else (10, some (start ++ key_frame_bytes width height ++ drop 10 m))
