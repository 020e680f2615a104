-- ===== src/DecodeSurfaces/Bounds.antt =====
-- The limits and the demands that a count of decode surfaces keeps to.
use nvidia_vaapi_driver.Prelude.{
  ℕ, ◌≤◌, ◌≡◌, true, false, max, min, if◌then◌else◌, ◌==◌, arith, ltb, ◌∙◌,
}
use nvidia_vaapi_driver.DecodeSurfaces.{
  Settings, max_u32, select_decode_surface_count, default_decode_surface_count,
  select_context_decode_surface_count, automatic_count,
}

-- What the count is to meet: the override where there is one, else the largest of the demands.
abbrev pub demand : ℕ → ℕ → ℕ → ℕ → ℕ
demand codec_default reference_hint client_targets override_count =
    if override_count == 0
    then max codec_default (max reference_hint client_targets)
    else override_count

max_u32_lem : (a b : ℕ) → max_u32 a b ≡ max a b
max_u32_lem a b = ground arith

clamp_lem :
    (wanted lowest maximum : ℕ)
    → let highest = if ltb maximum lowest then lowest else maximum in
      let raised = if ltb wanted lowest then lowest else wanted in
      (if ltb highest raised then highest else raised) ≡ max lowest (min maximum wanted)
clamp_lem wanted lowest maximum = ground arith

lowest_lem : (minimum : ℕ) → (if minimum == 0 then 1 else minimum) ≡ max 1 minimum
lowest_lem minimum = ground arith

wanted_lem :
    (codec_default reference_hint client_targets override_count : ℕ)
    → (if override_count == 0
        then max_u32 (max_u32 codec_default reference_hint) client_targets
        else override_count)
      ≡ demand codec_default reference_hint client_targets override_count
wanted_lem codec_default reference_hint client_targets override_count = ground (
  arith,
  max_u32_lem codec_default reference_hint,
  max_u32_lem (max_u32 codec_default reference_hint) client_targets,
)

-- nvdSelectDecodeSurfaceCount is the demand brought between max(1, minimum) and maximum, the
-- former where they cross.
pub select_count_lem :
    (codec_default reference_hint client_targets override_count minimum maximum : ℕ)
    → select_decode_surface_count codec_default reference_hint client_targets override_count minimum
        maximum
      ≡ max
          (max 1 minimum)
          (min maximum (demand codec_default reference_hint client_targets override_count))
unfolding select_decode_surface_count
select_count_lem codec_default reference_hint client_targets override_count minimum maximum =
    clamp_lem
      (if override_count == 0
        then max_u32 (max_u32 codec_default reference_hint) client_targets
        else override_count)
      (if minimum == 0 then 1 else minimum) maximum
    ∙ rw (lowest_lem minimum, wanted_lem codec_default reference_hint client_targets override_count)

-- `n` is a fit count of surfaces for `s`.
pub record Fits (s : Settings) (n : ℕ) : Type 0 where
  pub positive : 1 ≤ n
  pub above : s.decode_surfaces_minimum ≤ n
  pub below :
      1 ≤ s.decode_surfaces_maximum
      → s.decode_surfaces_minimum ≤ s.decode_surfaces_maximum
      → n ≤ s.decode_surfaces_maximum
  pub codec :
      s.decode_surfaces_auto ≡ true
      → default_decode_surface_count s.cuda_codec ≤ s.decode_surfaces_maximum
      → default_decode_surface_count s.cuda_codec ≤ n
  pub references :
      s.decode_surfaces_auto ≡ true
      → s.decode_surface_reference_hint ≤ s.decode_surfaces_maximum
      → s.decode_surface_reference_hint ≤ n
  pub targets :
      s.decode_surfaces_auto ≡ true
      → s.client_render_target_count ≤ s.decode_surfaces_maximum
      → s.client_render_target_count ≤ n
  pub fixed :
      s.decode_surfaces_auto ≡ false
      → n
        ≡ max (max 1 s.decode_surfaces_minimum) (
            min s.decode_surfaces_maximum
              (if s.decode_surfaces_override == 0 then 32 else s.decode_surfaces_override))

-- selectContextDecodeSurfaceCount is at least 1 and the minimum, and at most the maximum where
-- that is possible; in automatic mode it covers each of the codec's default, the references and
-- the client's targets that the maximum allows; else it is the override, or 32, so limited.
pub select_context-Fits : (s : Settings) → Fits s (select_context_decode_surface_count s)
unfolding select_context_decode_surface_count
select_context-Fits s =
    let auto =
      select_count_lem (default_decode_surface_count s.cuda_codec) s.decode_surface_reference_hint
        s.client_render_target_count 0 s.decode_surfaces_minimum s.decode_surfaces_maximum in
    let chosen =
      select_count_lem (automatic_count s) 0 0
        (if s.decode_surfaces_override == 0 then 32 else s.decode_surfaces_override)
        s.decode_surfaces_minimum s.decode_surfaces_maximum in
    record {
      positive = ground (arith, auto, chosen);
      above = ground (arith, auto, chosen);
      below = ground (arith, auto, chosen);
      codec = ground (arith, auto, chosen);
      references = ground (arith, auto, chosen);
      targets = ground (arith, auto, chosen);
      fixed = ground (arith, auto, chosen);
    }
