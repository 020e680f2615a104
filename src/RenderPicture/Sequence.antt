-- ===== src/RenderPicture/Sequence.antt =====
-- Buffers that a client renders in one call or in several, in src/vabackend.c.
use nvidia_vaapi_driver.Prelude.{
  ℕ, ◌≡◌, inl, inr, refl, ap, sym, ◌∙◌, Option, some, List, [], ◌∷◌, ◌++◌, true, false, not,
  if◌then◌else◌, Bool-cases,
}
use nvidia_vaapi_driver.AppendableBuffer.{Memalign}
use nvidia_vaapi_driver.RenderPicture.{
  VaStatus, Picture, building, BufferObject, Codec, is_success, is_building, render_buffer,
  render_buffers, render_picture_impl, settle, render_picture,
}
use nvidia_vaapi_driver.RenderPicture.Failure.{render_buffers-IsStep}

abbrev Result : Type 0
Result = VaStatus × Picture

go_on :
    (f : Result → Result) (q r : Result)
    → q ≡ r
    → is_success r.0 ≡ true
    → (if is_success q.0 then f q else q) ≡ f r
go_on f q r same e = ap (λ (z : Result). if is_success z.0 then f z else z) same ∙ rw e refl

stop_there :
    (f : Result → Result) (q r : Result)
    → q ≡ r
    → is_success r.0 ≡ false
    → (if is_success q.0 then f q else q) ≡ r
stop_there f q r same e = ap (λ (z : Result). if is_success z.0 then f z else z) same ∙ rw e refl

module _ (memalign : Memalign) (type_max slice_type : ℕ) (codec : Codec) (id : ℕ)
    (objects : ℕ → Option BufferObject) where
  abbrev render_ids : Picture → List ℕ → VaStatus × Picture
  render_ids = render_buffers memalign type_max slice_type codec id objects

  render_buffers-append :
      (p : Picture) (xs ys : List ℕ)
      → render_ids p (xs ++ ys) ≡ (
          if is_success (render_ids p xs).0
          then render_ids (render_ids p xs).1 ys
          else render_ids p xs)
  unfolding render_buffers
  render_buffers-append p [] ys = refl
  render_buffers-append p (x ∷ xs) ys =
      let r = render_buffer memalign type_max slice_type codec id p (objects x) in
      let ih = render_buffers-append r.1 xs ys in
      elim (Bool-cases (is_success r.0)) [ inl e ↦ rw e ih | inr e ↦ rw (e, e) refl ]

  abbrev pub render : Picture → List ℕ → VaStatus × Picture
  render p ids = render_picture memalign type_max slice_type codec id false objects p (some ids)

  render-settled :
      (p : Picture) (ids : List ℕ) → p.state ≡ building → render p ids ≡ settle (render_ids p ids)
  unfolding render_picture render_picture_impl
  render-settled p ids b =
      let open_now : not (is_building p.state) ≡ false = rw b refl in rw open_now refl

  settle-success : (r : VaStatus × Picture) → is_success r.0 ≡ true → settle r ≡ r
  unfolding settle
  settle-success r e = rw e refl

  settle-status : (r : VaStatus × Picture) → (settle r).0 ≡ r.0
  unfolding settle
  settle-status r = elim (Bool-cases (is_success r.0)) [ inl e ↦ rw e refl | inr e ↦ rw e refl ]

  -- On a picture that is being built, while CUDA may be used: one call of nvRenderPicture with two
  -- rows of buffers does what a call with the first row and, if it succeeds, a call with the second
  -- do.
  pub render_picture-append :
      (p : Picture) (xs ys : List ℕ)
      → p.state ≡ building
      → render p (xs ++ ys)
        ≡ (if is_success (render p xs).0 then render (render p xs).1 ys else render p xs)
  render_picture-append p xs ys b =
      let r = render_ids p xs in
      let s = render_buffers-IsStep memalign type_max slice_type codec id objects p xs in
      let first = render-settled p xs b in
      let whole = render-settled p (xs ++ ys) b ∙ ap settle (render_buffers-append p xs ys) in
      elim (Bool-cases (is_success r.0)) [
        | inl e ↦
            let same : render p xs ≡ r = first ∙ settle-success r e in
            let second = render-settled r.1 ys (s.same_state ∙ b) in
            whole
            ∙ ap settle (go_on (λ q. render_ids q.1 ys) r r refl e)
            ∙ sym second
            ∙ sym (go_on (λ q. render q.1 ys) (render p xs) r same e)
        | inr e ↦
            whole
            ∙ ap settle (stop_there (λ q. render_ids q.1 ys) r r refl e)
            ∙ sym (
                stop_there (λ q. render q.1 ys) (render p xs) (settle r) first
                  (ap is_success (settle-status r) ∙ e))
      ]
