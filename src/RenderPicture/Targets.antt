-- ===== src/RenderPicture/Targets.antt =====
-- The cancelling of the surfaces that a picture is decoded into, in src/vabackend.c.
use nvidia_vaapi_driver.Prelude.{
  ℕ, ◌≡◌, ◌⊎◌, inl, inr, refl, ap, sym, ◌∙◌, Option, none, some, true, false, ◌==◌, Bool-cases,
  arith,
}
use nvidia_vaapi_driver.RenderPicture.{
  decoding_error, Surface, CodecState, on_surface, on_targets, same_target, fail_surface_resolve,
}

-- A surface that no one has to wait for, and that tells that its decoding has failed.
pub record HasFailed (s : Surface) : Type 0 where
  pub resolved : s.resolving ≡ false
  pub complete : s.completed_generation ≡ s.submitted_generation
  pub decode_failed : s.decode_failed ≡ true
  pub status : s.completion_status ≡ decoding_error

abbrev pub IsTarget : CodecState → ℕ → Type 0
IsTarget c i = (c.display_target ≡ some i) ⊎ (c.render_target ≡ some i)

abbrev pub fail_decoding : Surface → Surface
fail_decoding = fail_surface_resolve decoding_error

fail_decoding-HasFailed : (s : Surface) → HasFailed (fail_decoding s)
fail_decoding-HasFailed s = record {
  resolved = refl;
  complete = refl;
  decode_failed = refl;
  status = refl;
}

on_surface-at :
    (o : Option ℕ) (surfaces : ℕ → Surface) (i : ℕ)
    → o ≡ some i
    → HasFailed (on_surface fail_decoding o surfaces i)
on_surface-at o surfaces i e =
    let same : (i == i) ≡ true = ground arith in rw (e, same) (fail_decoding-HasFailed (surfaces i))

on_surface-later :
    (o : Option ℕ) (surfaces : ℕ → Surface) (i : ℕ)
    → HasFailed (surfaces i)
    → HasFailed (on_surface fail_decoding o surfaces i)
on_surface-later none surfaces i h = h
on_surface-later (some t) surfaces i h = elim (Bool-cases (i == t)) [
  | inl e ↦ rw e (fail_decoding-HasFailed (surfaces i))
  | inr e ↦ rw e h
]

on_surface-other :
    (f : Surface → Surface) (o : Option ℕ) (surfaces : ℕ → Surface) (i : ℕ)
    → ¬ (o ≡ some i)
    → on_surface f o surfaces i ≡ surfaces i
on_surface-other f none surfaces i n = refl
on_surface-other f (some t) surfaces i n = elim (Bool-cases (i == t)) [
  | inl e ↦ let same : i ≡ t = ground arith in absurd (n (ap some (sym same)))
  | inr e ↦ rw e refl
]

same_target-eq : (s t : Option ℕ) → same_target s t ≡ true → s ≡ t
same_target-eq none none e = refl
same_target-eq none (some t) e = cc
same_target-eq (some s) none e = cc
same_target-eq (some s) (some t) e = let same : s ≡ t = ground arith in ap some same

pub on_targets-HasFailed :
    (c : CodecState) (surfaces : ℕ → Surface) (i : ℕ)
    → IsTarget c i
    → HasFailed (on_targets fail_decoding c surfaces i)
on_targets-HasFailed c surfaces i target =
    let shown = on_surface fail_decoding c.display_target surfaces in
    elim (Bool-cases (same_target c.render_target c.display_target)) [
      | inl same ↦
          let e = same_target-eq c.render_target c.display_target same in
          rw same (elim target [
            | inl d ↦ on_surface-at c.display_target surfaces i d
            | inr r ↦ on_surface-at c.display_target surfaces i (sym e ∙ r)
          ])
      | inr other ↦ rw other (elim target [
        | inl d ↦
            on_surface-later c.render_target shown i (on_surface-at c.display_target surfaces i d)
        | inr r ↦ on_surface-at c.render_target shown i r
      ])
    ]

pub on_targets-other :
    (f : Surface → Surface) (c : CodecState) (surfaces : ℕ → Surface) (i : ℕ)
    → ¬ IsTarget c i
    → on_targets f c surfaces i ≡ surfaces i
on_targets-other f c surfaces i n =
    let shown = on_surface f c.display_target surfaces in
    let d = on_surface-other f c.display_target surfaces i (λ e. n (inl e)) in
    elim (Bool-cases (same_target c.render_target c.display_target)) [
      | inl same ↦ rw same d
      | inr other ↦ rw other (on_surface-other f c.render_target shown i (λ e. n (inr e)) ∙ d)
    ]
