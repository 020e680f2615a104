-- ===== src/RenderPicture/Failure.antt =====
-- What nvRenderPicture leaves behind: no surface waits for a picture that has failed.
use nvidia_vaapi_driver.Prelude.{
  ℕ, ◌≡◌, ◌⊎◌, inl, inr, refl, ap, ◌∙◌, Option, none, some, List, [], ◌∷◌, Bool, true, false, ◌||◌,
  not, ltb, ◌==◌, if◌then◌else◌, Bool-cases,
}
use nvidia_vaapi_driver.AppendableBuffer.{AppendableBuffer, Memalign, is_null}
use nvidia_vaapi_driver.Codec.Utils.{VaBuffer, reject, validate_buffer_schema}
use nvidia_vaapi_driver.RenderPicture.{
  VaStatus, success, operation_failed, allocation_failed, invalid_buffer, invalid_parameter,
  unsupported_buffertype, building, failed, Surface, CodecState, Picture, BufferObject, Handler,
  Codec, on_targets, finished, cancel_current_picture_resolve, finish_targets, with_codec, refuse,
  after_handler, handle_slice_params, dispatch, render_buffer, render_buffers, is_success,
  render_picture_impl, settle, is_building, render_picture,
}
use nvidia_vaapi_driver.RenderPicture.Targets.{
  HasFailed, IsTarget, fail_decoding, on_targets-HasFailed, on_targets-other,
}

-- What a part of nvRenderPictureImpl may do to a picture.
pub record IsStep (p : Picture) (r : VaStatus × Picture) : Type 0 where
  pub same_state : r.1.state ≡ p.state
  pub same_failure : r.1.failure ≡ p.failure
  pub kept : is_success r.0 ≡ true → r.1.surfaces ≡ p.surfaces
  pub others : (i : ℕ) → ¬ IsTarget r.1.codec i → r.1.surfaces i ≡ p.surfaces i

refuse-IsStep :
    (p : Picture) (c : CodecState) (f : Surface → Surface) (status : VaStatus)
    → is_success status ≡ false
    → IsStep p (status, record p { codec = c; surfaces = on_targets f c p.surfaces })
refuse-IsStep p c f status e = record {
  same_state = refl;
  same_failure = refl;
  kept = λ h. cc;
  others = λ i n. on_targets-other f c p.surfaces i n;
}

tests-IsStep :
    (p : Picture) (c : CodecState) (rejected no_memory : Bool)
    → IsStep p (
        if rejected
        then (invalid_parameter, finish_targets (with_codec p c))
        else if no_memory
        then (allocation_failed, cancel_current_picture_resolve (with_codec p c))
        else (success, with_codec p c))
unfolding cancel_current_picture_resolve finish_targets
tests-IsStep p c true no_memory = refuse-IsStep p c finished invalid_parameter refl
tests-IsStep p c false true = refuse-IsStep p c fail_decoding allocation_failed refl
tests-IsStep p c false false = record {
  same_state = refl;
  same_failure = refl;
  kept = λ e. refl;
  others = λ i n. refl;
}

after_handler-IsStep : (p : Picture) (c : CodecState) → IsStep p (after_handler (with_codec p c))
unfolding after_handler
after_handler-IsStep p c = tests-IsStep p c c.context.input_validation_failed (
    c.context.bitstream_buffer.failed || c.context.slice_offsets.failed
    || c.slice_params_buffer.failed)

rejected-IsStep :
    (p : Picture) (status : VaStatus) → is_success status ≡ false → IsStep p (refuse status p)
unfolding cancel_current_picture_resolve
rejected-IsStep p status e =
    refuse-IsStep p (record p.codec { context = reject p.codec.context }) fail_decoding status e

handle_slice_params-IsStep :
    (p : Picture) (func : Handler) (buf : VaBuffer) (r : Bool × AppendableBuffer)
    → IsStep p (handle_slice_params p func buf r)
unfolding handle_slice_params cancel_current_picture_resolve
handle_slice_params-IsStep p func buf (false, params) =
    refuse-IsStep p (record p.codec { slice_params_buffer = params }) fail_decoding
      allocation_failed refl
handle_slice_params-IsStep p func buf (true, params) =
    after_handler-IsStep p
      (func (record p.codec { slice_params_buffer = params }) (record buf { ptr = params.buf }))

module _ (memalign : Memalign) (type_max slice_type : ℕ) (codec : Codec) (id : ℕ) where
  dispatch-IsStep :
      (p : Picture) (o : BufferObject) (func : Option Handler)
      → IsStep p (dispatch memalign type_max slice_type codec id p o func)
  unfolding dispatch
  dispatch-IsStep p o none = rejected-IsStep p unsupported_buffertype refl
  dispatch-IsStep p o (some func) =
      elim (Bool-cases
        (not (validate_buffer_schema (some o.buffer) (some (codec.schemas o.buffer_type))))) [
          | inl e ↦ rw e (rejected-IsStep p invalid_parameter refl)
          | inr e ↦ elim (Bool-cases (o.buffer_type == slice_type)) [
            | inl f ↦ rw (e, f) (handle_slice_params-IsStep p func o.buffer _)
            | inr f ↦ rw (e, f) (after_handler-IsStep p (func p.codec o.buffer))
          ]
        ]

  render_buffer-IsStep :
      (p : Picture) (found : Option BufferObject)
      → IsStep p (render_buffer memalign type_max slice_type codec id p found)
  unfolding render_buffer
  render_buffer-IsStep p none = rejected-IsStep p invalid_buffer refl
  render_buffer-IsStep p (some o) = elim (Bool-cases (is_null o.buffer.ptr)) [
    | inl e ↦ rw e (rejected-IsStep p invalid_buffer refl)
    | inr e ↦ elim (Bool-cases (not (o.owner_context_id == id))) [
      | inl f ↦ rw (e, f) (rejected-IsStep p invalid_buffer refl)
      | inr f ↦ elim (Bool-cases (not (ltb o.buffer_type type_max))) [
        | inl g ↦ rw (e, f, g) (rejected-IsStep p unsupported_buffertype refl)
        | inr g ↦ rw (e, f, g) (dispatch-IsStep p o (codec.handlers o.buffer_type))
      ]
    ]
  ]

  pub render_buffers-IsStep :
      (objects : ℕ → Option BufferObject) (p : Picture) (ids : List ℕ)
      → IsStep p (render_buffers memalign type_max slice_type codec id objects p ids)
  unfolding render_buffers
  render_buffers-IsStep objects p [] = record {
    same_state = refl;
    same_failure = refl;
    kept = λ e. refl;
    others = λ i n. refl;
  }
  render_buffers-IsStep objects p (b ∷ rest) =
      let r = render_buffer memalign type_max slice_type codec id p (objects b) in
      let s = render_buffer-IsStep p (objects b) in
      let t = render_buffers-IsStep objects r.1 rest in
      elim (Bool-cases (is_success r.0)) [
        | inl e ↦ rw e (record {
          same_state = t.same_state ∙ s.same_state;
          same_failure = t.same_failure ∙ s.same_failure;
          kept = λ h. t.kept h ∙ s.kept e;
          others = λ i n. t.others i n ∙ ap (λ (f : ℕ → Surface). f i) (s.kept e);
        })
        | inr e ↦ rw e s
      ]

  render_picture_impl-IsStep :
      (cuda_work_unsafe : Bool) (objects : ℕ → Option BufferObject) (p : Picture)
      (buffers : Option (List ℕ))
      → IsStep p (
          render_picture_impl memalign type_max slice_type codec id cuda_work_unsafe objects p
            buffers)
  unfolding render_picture_impl cancel_current_picture_resolve
  render_picture_impl-IsStep true objects p buffers =
      refuse-IsStep p p.codec fail_decoding operation_failed refl
  render_picture_impl-IsStep false objects p none =
      refuse-IsStep p p.codec fail_decoding invalid_parameter refl
  render_picture_impl-IsStep false objects p (some ids) = render_buffers-IsStep objects p ids

-- The picture goes on being built, and no surface's completion has changed.
pub record Accepted (p : Picture) (r : VaStatus × Picture) : Type 0 where
  pub status : is_success r.0 ≡ true
  pub state : r.1.state ≡ p.state
  pub surfaces : r.1.surfaces ≡ p.surfaces

-- The picture keeps the failure for nvEndPicture; its targets have failed, and no one has to wait for
-- them; the completion of other surfaces is as it was.
pub record Abandoned (p : Picture) (r : VaStatus × Picture) : Type 0 where
  pub status : is_success r.0 ≡ false
  pub state : r.1.state ≡ failed
  pub failure : r.1.failure ≡ r.0
  pub targets : (i : ℕ) → IsTarget r.1.codec i → HasFailed (r.1.surfaces i)
  pub others : (i : ℕ) → ¬ IsTarget r.1.codec i → r.1.surfaces i ≡ p.surfaces i

settle-Outcome :
    (p : Picture) (r : VaStatus × Picture)
    → IsStep p r
    → Accepted p (settle r) ⊎ Abandoned p (settle r)
unfolding settle cancel_current_picture_resolve
settle-Outcome p (status, q) s = elim (Bool-cases (is_success status)) [
  | inl e ↦ rw e (inl (record { status = e; state = s.same_state; surfaces = s.kept e }))
  | inr e ↦ rw e (
      inr (record {
        status = e;
        state = refl;
        failure = refl;
        targets = λ i t. on_targets-HasFailed q.codec q.surfaces i t;
        others = λ i n. on_targets-other fail_decoding q.codec q.surfaces i n ∙ s.others i n;
      }))
]

-- nvRenderPicture for decoding, on a picture that is being built, with any handlers that leave the
-- completion of surfaces alone: either it succeeds, the picture goes on being built and no surface's
-- completion has changed, or the picture keeps the status that is answered as its failure, its
-- targets tell that decoding has failed and no one has to wait for them, and no other surface's
-- completion has changed.
pub render_picture-Outcome :
    (memalign : Memalign) (type_max slice_type : ℕ) (codec : Codec) (id : ℕ)
    (cuda_work_unsafe : Bool) (objects : ℕ → Option BufferObject) (p : Picture)
    (buffers : Option (List ℕ))
    → p.state ≡ building
    → let r =
        render_picture memalign type_max slice_type codec id cuda_work_unsafe objects p buffers in
      Accepted p r ⊎ Abandoned p r
unfolding render_picture
render_picture-Outcome memalign type_max slice_type codec id cuda_work_unsafe objects p buffers b =
    let open_now : not (is_building p.state) ≡ false = rw b refl in
    rw open_now (
      settle-Outcome p _ (
        render_picture_impl-IsStep memalign type_max slice_type codec id cuda_work_unsafe objects p
          buffers))
