-- ===== src/RenderPicture.antt =====
-- src/vabackend.c: nvRenderPicture for a decode context that the object table has found, with the
-- completion of surfaces; not its branch for video processing. An `NVSurface` is modelled in two
-- halves: `Surface` has the fields of its completion, which no handler of a codec writes, and
-- `SurfaceInfo` those that describe its picture, which handlers write as they like. The handlers of
-- the codec are a table; they change `CodecState`. The data that a codec keeps for itself, the flags
-- of backing images, which follow those of the surfaces, and the wake-ups are left out.
pub mod Targets
pub mod Failure
pub mod Sequence
mod Tests
use nvidia_vaapi_driver.Prelude.{
  ℕ, zero, suc, ◌+◌, Option, none, some, List, [], ◌∷◌, Bool, true, false, ◌&&◌, ◌||◌, not, ltb,
  ◌==◌, if◌then◌else◌,
}
use nvidia_vaapi_driver.AppendableBuffer.{AppendableBuffer, Memalign, is_null, append_buffer}
use nvidia_vaapi_driver.Codec.Utils.{
  VaBuffer, Context, PicParams, BufferSchema, reject, validate_buffer_schema,
}

-- The statuses of VA-API that are answered.
pub data VaStatus : Type 0 where
  success : VaStatus
  operation_failed : VaStatus
  allocation_failed : VaStatus
  invalid_buffer : VaStatus
  invalid_parameter : VaStatus
  unsupported_buffertype : VaStatus
  decoding_error : VaStatus

-- `NVD_PICTURE_…`
pub data PictureState : Type 0 where
  idle : PictureState
  building : PictureState
  failed : PictureState
  submitted : PictureState

-- The fields of `NVSurface` that say how far its decoding is.
pub record Surface : Type 0 where
  pub resolving : Bool
  pub decode_failed : Bool
  pub submitted_generation : ℕ
  pub completed_generation : ℕ
  completion_status : VaStatus

-- The fields of `NVSurface` that the handlers of a codec write; a standard is its number.
pub record SurfaceInfo : Type 0 where
  pub progressive_frame : Bool
  pub order_hint : ℕ
  pub color_standard : ℕ
  pub color_range_full : Bool

-- What the handlers of a codec change in `NVContext` and, for any surface, in its description; the
-- targets are indices of surfaces.
pub record CodecState : Type 0 where
  pub context : Context
  pub slice_params_buffer : AppendableBuffer
  pub pic : PicParams
  pub render_target : Option ℕ
  pub display_target : Option ℕ
  pub surface_info : ℕ → SurfaceInfo

pub record Picture : Type 0 where
  pub codec : CodecState
  state : PictureState
  failure : VaStatus
  pub surfaces : ℕ → Surface

-- `NVBuffer` with its type and owner.
pub record BufferObject : Type 0 where
  pub buffer : VaBuffer
  pub buffer_type : ℕ
  pub owner_context_id : ℕ

abbrev pub Handler : Type 0
Handler = CodecState → VaBuffer → CodecState

-- `NVCodec`: the handler and the schema of a buffer type.
pub record Codec : Type 0 where
  pub handlers : ℕ → Option Handler
  pub schemas : ℕ → BufferSchema

-- The second half of setSurfaceResolving with false.
abbrev pub finished : Surface → Surface
finished s = record s {
  completed_generation = s.submitted_generation;
  completion_status = if s.decode_failed then decoding_error else success;
  resolving = false;
}

-- failSurfaceResolve
abbrev pub fail_surface_resolve : VaStatus → Surface → Surface
fail_surface_resolve success s = record s {
  decode_failed = true;
  completion_status = operation_failed;
  completed_generation = s.submitted_generation;
  resolving = false;
}
fail_surface_resolve status s = record s {
  decode_failed = true;
  completion_status = status;
  completed_generation = s.submitted_generation;
  resolving = false;
}

abbrev pub on_surface : (Surface → Surface) → Option ℕ → (ℕ → Surface) → ℕ → Surface
on_surface f none surfaces i = surfaces i
on_surface f (some t) surfaces i = if i == t then f (surfaces i) else surfaces i

abbrev pub same_target : Option ℕ → Option ℕ → Bool
same_target none none = true
same_target none (some t) = false
same_target (some s) none = false
same_target (some s) (some t) = s == t

-- The display target, then the render target if it is another.
abbrev pub on_targets : (Surface → Surface) → CodecState → (ℕ → Surface) → ℕ → Surface
on_targets f c surfaces =
    let shown = on_surface f c.display_target surfaces in
    if same_target c.render_target c.display_target
    then shown
    else on_surface f c.render_target shown

pub cancel_current_picture_resolve : Picture → Picture
cancel_current_picture_resolve p = record p {
  surfaces = on_targets (fail_surface_resolve decoding_error) p.codec p.surfaces;
}

-- The clearing where a handler has rejected its buffer.
pub finish_targets : Picture → Picture
finish_targets p = record p { surfaces = on_targets finished p.codec p.surfaces }

abbrev pub with_codec : Picture → CodecState → Picture
with_codec p c = record p { codec = c }

abbrev pub reject_input : Picture → Picture
reject_input p = with_codec p (record p.codec { context = reject p.codec.context })

abbrev pub refuse : VaStatus → Picture → VaStatus × Picture
refuse status p = (status, cancel_current_picture_resolve (reject_input p))

-- The tests behind the call of a handler.
pub after_handler : Picture → VaStatus × Picture
after_handler p =
    let ctx = p.codec.context in
    if ctx.input_validation_failed
    then (invalid_parameter, finish_targets p)
    else if ctx.bitstream_buffer.failed || ctx.slice_offsets.failed
        || p.codec.slice_params_buffer.failed
    then (allocation_failed, cancel_current_picture_resolve p)
    else (success, p)

-- Slice parameters are handed over from the copy that the context owns.
pub handle_slice_params :
    Picture → Handler → VaBuffer → Bool × AppendableBuffer → VaStatus × Picture
handle_slice_params p func buf (done, params) =
    let c = record p.codec { slice_params_buffer = params } in
    if not done
    then (allocation_failed, cancel_current_picture_resolve (with_codec p c))
    else after_handler (with_codec p (func c (record buf { ptr = params.buf })))

abbrev pub is_success : VaStatus → Bool
is_success success = true
is_success operation_failed = false
is_success allocation_failed = false
is_success invalid_buffer = false
is_success invalid_parameter = false
is_success unsupported_buffertype = false
is_success decoding_error = false

module _ (memalign : Memalign) (buffer_type_max slice_param_type : ℕ) (codec : Codec)
    (context_id : ℕ) where
  pub dispatch : Picture → BufferObject → Option Handler → VaStatus × Picture
  dispatch p o none = refuse unsupported_buffertype p
  dispatch p o (some func) =
      if not (validate_buffer_schema (some o.buffer) (some (codec.schemas o.buffer_type)))
      then refuse invalid_parameter p
      else if o.buffer_type == slice_param_type
      then handle_slice_params p func o.buffer (
          append_buffer memalign (record p.codec.slice_params_buffer { size = 0 }) o.buffer.ptr
            o.buffer.size)
      else after_handler (with_codec p (func p.codec o.buffer))

  -- One round of the loop.
  pub render_buffer : Picture → Option BufferObject → VaStatus × Picture
  render_buffer p none = refuse invalid_buffer p
  render_buffer p (some o) =
      if is_null o.buffer.ptr
      then refuse invalid_buffer p
      else if not (o.owner_context_id == context_id)
      then refuse invalid_buffer p
      else if not (ltb o.buffer_type buffer_type_max)
      then refuse unsupported_buffertype p
      else dispatch p o (codec.handlers o.buffer_type)

  -- The loop, up to the first buffer that is refused; `objects` finds a buffer by its id.
  pub render_buffers : (ℕ → Option BufferObject) → Picture → List ℕ → VaStatus × Picture
  render_buffers objects p [] = (success, p)
  render_buffers objects p (id ∷ rest) =
      let r = render_buffer p (objects id) in
      if is_success r.0 then render_buffers objects r.1 rest else r

  -- nvRenderPictureImpl for decoding; `none` is a negative count, or NULL with a positive one.
  pub render_picture_impl :
      Bool → (ℕ → Option BufferObject) → Picture → Option (List ℕ) → VaStatus × Picture
  render_picture_impl cuda_work_unsafe objects p buffers =
      if cuda_work_unsafe
      then (operation_failed, cancel_current_picture_resolve p)
      else elim buffers [
        | none ↦ (invalid_parameter, cancel_current_picture_resolve p)
        | some ids ↦ render_buffers objects p ids
      ]

-- What follows the call in nvRenderPicture.
pub settle : VaStatus × Picture → VaStatus × Picture
settle (status, p) =
    if is_success status
    then (status, p)
    else (status, cancel_current_picture_resolve (record p { state = failed; failure = status }))

abbrev pub is_building : PictureState → Bool
is_building building = true
is_building idle = false
is_building failed = false
is_building submitted = false

-- nvRenderPicture
pub render_picture :
    Memalign
    → ℕ
    → ℕ
    → Codec
    → ℕ
    → Bool
    → (ℕ → Option BufferObject)
    → Picture
    → Option (List ℕ)
    → VaStatus × Picture
render_picture memalign type_max slice_type codec id cuda_work_unsafe objects p buffers =
    if not (is_building p.state)
    then (operation_failed, p)
    else settle (
        render_picture_impl memalign type_max slice_type codec id cuda_work_unsafe objects p
          buffers)
