-- ===== src/Codec/Slices/Measure.antt =====
-- The first loop of the slice handlers: the ranges are checked and the bytes counted.
use nvidia_vaapi_driver.Prelude.{
  ℕ, ◌+◌, ◌-◌, ◌^◌, ◌≤◌, ◌<◌, ◌≡◌, ◌⊎◌, inl, inr, refl, ap, ◌∙◌, ◌≢◌, Option, none, some, List, [],
  ◌∷◌, true, false, ◌||◌, ltb, arith, Bool-cases, Option-cases, size_max, add32, add64, drop,
}
use nvidia_vaapi_driver.AppendableBuffer.{is_null}
use nvidia_vaapi_driver.Codec.Utils.{VaBuffer, SliceParam, Context, reject, validate_slice_range}
use nvidia_vaapi_driver.Codec.Utils.Ranges.{
  validate_slice_range-accepts, validate_slice_range-rejects,
}
use native.Mathlib.Decide.{dec_lt}
use nvidia_vaapi_driver.Codec.Slices.{measure_slices, fail_bitstream}

-- The slice lies inside the buffer.
pub record InRange (buf : VaBuffer) (s : SliceParam) : Type 0 where
  pub mapped : is_null buf.ptr ≡ false
  pub inside : s.slice_data_offset + s.slice_data_size ≤ buf.size

abbrev pub AllInRange : VaBuffer → List SliceParam → Type 0
AllInRange buf [] = Unit {0}
AllInRange buf (s ∷ rest) = InRange buf s × AllInRange buf rest

-- With a header of `h` bytes each slice still counts in 32 bits.
abbrev pub AllSmall : ℕ → List SliceParam → Type 0
AllSmall h [] = Unit {0}
AllSmall h (s ∷ rest) = (s.slice_data_size + h < 2 ^ 32) × AllSmall h rest

unfoldable pub needed : ℕ → List SliceParam → ℕ
needed h [] = 0
needed h (s ∷ rest) = s.slice_data_size + h + needed h rest

-- What the loop answers.
abbrev pub Answer : ℕ → VaBuffer → Context → List SliceParam → ℕ → Context × Option ℕ → Type 0
Answer h buf ctx slices total (ctx', some n) =
    (ctx' ≡ ctx) × (n ≡ total + needed h slices) × (n ≤ size_max) × AllInRange buf slices
Answer h buf ctx slices total (ctx', none) = (ctx' ≡ reject ctx) ⊎ (ctx' ≡ fail_bitstream ctx)

-- A range is accepted or the context is marked.
range_cases :
    (ctx : Context) (buf : VaBuffer) (s : SliceParam)
    → (InRange buf s
        × ((m : List ℕ) × (validate_slice_range
                (some ctx)
                (some buf)
                s.slice_data_offset
                s.slice_data_size
              ≡ (true, some ctx, some m))))
      ⊎ (validate_slice_range (some ctx) (some buf) s.slice_data_offset s.slice_data_size
          ≡ (false, some (reject ctx), none))
range_cases ctx buf s = elim (Option-cases buf.ptr) [
  | inl e ↦ inr (validate_slice_range-rejects ctx buf s.slice_data_offset s.slice_data_size (inl e))
  | inr (m, e) ↦ elim (dec_lt buf.size (s.slice_data_offset + s.slice_data_size)) [
    | yes h ↦
        inr (validate_slice_range-rejects ctx buf s.slice_data_offset s.slice_data_size (inr h))
    | no h ↦ inl (
      record { mapped = rw e refl; inside = omega arith },
      (
        drop s.slice_data_offset m,
        validate_slice_range-accepts ctx buf m s.slice_data_offset s.slice_data_size e
            (omega arith),
      ),
    )
  ]
]

-- The sums of a round do not wrap around.
round_sum :
    (h total size : ℕ)
    → size + h < 2 ^ 32
    → (ltb (size_max - h) total || ltb (size_max - total - h) size) ≡ false
    → add64 total (add32 size h) ≡ total + (size + h)
round_sum h total size small fits = ground arith

InRange-accepted :
    (ctx : Context) (buf : VaBuffer) (s : SliceParam)
    → InRange buf s
    → validate_slice_range (some ctx) (some buf) s.slice_data_offset s.slice_data_size
      ≢ (false, some (reject ctx), none)
InRange-accepted ctx buf s r bad = elim (Option-cases buf.ptr) [
  | inl e ↦ let z = rw e at r.mapped in cc
  | inr (m, e) ↦
      let z =
        validate_slice_range-accepts ctx buf m s.slice_data_offset s.slice_data_size e r.inside in
      cc
]

Answer-step :
    (h : ℕ) (buf : VaBuffer) (ctx : Context) (s : SliceParam) (rest : List SliceParam) (total : ℕ)
    → InRange buf s
    → (r : Context × Option ℕ) → Answer h buf ctx rest (total + (s.slice_data_size + h)) r
    → Answer h buf ctx (s ∷ rest) total r
unfolding needed
Answer-step h buf ctx s rest total good (ctx', none) a = a
Answer-step h buf ctx s rest total good (ctx', some n) (e, sum, b, all) =
    (e, omega arith, b, (good, all))

pub measure_slices-Answer :
    (h : ℕ) (buf : VaBuffer) (ctx : Context) (slices : List SliceParam) (total : ℕ)
    → total ≤ size_max
    → AllSmall h slices
    → Answer h buf ctx slices total (measure_slices h buf ctx slices total)
unfolding measure_slices needed
measure_slices-Answer h buf ctx [] total b small = (refl, omega arith, b, tt)
measure_slices-Answer h buf ctx (s ∷ rest) total b (small, later) = elim (range_cases ctx buf s) [
  | inr bad ↦ rw bad (inl refl)
  | inl (good, (m, e)) ↦
      elim (Bool-cases (ltb (size_max - h) total || ltb (size_max - total - h) s.slice_data_size)) [
        | inl over ↦ rw (e, over) (inr refl)
        | inr fits ↦
            let sum = round_sum h total s.slice_data_size small fits in
            rw (e, fits, sum)
              (Answer-step h buf ctx s rest total good
                (measure_slices h buf ctx rest (total + (s.slice_data_size + h)))
                (measure_slices-Answer h buf ctx rest (total + (s.slice_data_size + h))
                  (ground arith) later))
      ]
]

-- Slices that lie in the buffer, and whose bytes can be counted, pass.
pub measure_slices-passes :
    (h : ℕ) (buf : VaBuffer) (ctx : Context) (slices : List SliceParam) (total : ℕ)
    → AllSmall h slices
    → AllInRange buf slices
    → total + needed h slices ≤ size_max
    → measure_slices h buf ctx slices total ≡ (ctx, some (total + needed h slices))
unfolding measure_slices needed
measure_slices-passes h buf ctx [] total small all b = ap (λ (n : ℕ). (ctx, some n)) (omega arith)
measure_slices-passes h buf ctx (s ∷ rest) total (small, later) (good, all) b =
    elim (range_cases ctx buf s) [
      | inr bad ↦ absurd (InRange-accepted ctx buf s good bad)
      | inl (good', (m, e)) ↦
          let fits : (ltb (size_max - h) total || ltb (size_max - total - h) s.slice_data_size)
              ≡ false =
            ground arith in
          let sum = round_sum h total s.slice_data_size small fits in
          rw (e, fits, sum)
            (measure_slices-passes h buf ctx rest (total + (s.slice_data_size + h)) later all
                (omega (arith, b))
              ∙ ap (λ (n : ℕ). (ctx, some n)) (omega arith))
    ]
