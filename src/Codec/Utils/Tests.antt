-- ===== src/Codec/Utils/Tests.antt =====
-- The checks of src/codec-utils.c and the VP8 header at concrete inputs.
use nvidia_vaapi_driver.Prelude.{
  refl, ℕ, ◌+◌, ◌*◌, ◌^◌, ◌≡◌, some, List, [], ◌∷◌, ◌++◌, Bool, true, drop, length, get_or, arith,
}
use nvidia_vaapi_driver.Codec.Utils.{build_vp8_frame_header}
use nvidia_vaapi_driver.Codec.Utils.Vp8Header.{
  Decodes, Carries, build_vp8-Decodes, build_vp8-rejects,
}

abbrev blank : List ℕ
blank = 0 ∷ 0 ∷ 0 ∷ 0 ∷ 0 ∷ 0 ∷ 0 ∷ 0 ∷ 0 ∷ 0 ∷ []

build_vp8-Decodes_example :
    (header : List ℕ) × (build_vp8_frame_header (some blank) true 2 true 1000 176 144
      ≡ (length header, some (header ++ drop (length header) blank)))
    × Decodes true true 2 1000 header
    × (◌≡◌ {A = Bool} true true
        → (get_or header 6 0 + get_or header 7 0 * 2 ^ 8 ≡ 176)
          × (get_or header 8 0 + get_or header 9 0 * 2 ^ 8 ≡ 144)
          × (get_or header 3 0 ∷ get_or header 4 0 ∷ get_or header 5 0 ∷ []
              ≡ 0x9d ∷ 0x01 ∷ 0x2a ∷ []))
build_vp8-Decodes_example =
    build_vp8-Decodes blank true true 2 1000 176 144 (omega arith) (omega arith) (omega arith)
      (omega arith)

too_wide : (build_vp8_frame_header (some blank) true 2 true 1000 16384 144).0 ≡ 0
unfolding build_vp8_frame_header
too_wide = refl

build_vp8-rejects_example :
    (build_vp8_frame_header (some blank) true 2 true 1000 16384 144 ≡ (0, some blank))
    × ((header : List ℕ) → ¬ Carries true true 2 1000 16384 144 header)
build_vp8-rejects_example = build_vp8-rejects blank true true 2 1000 16384 144 too_wide
