-- ===== src/Codec/Utils/Vp8Header.antt =====
-- src/codec-utils.c: nvBuildVP8FrameHeader read back as RFC 6386 (9.1) reads a frame header.
use nvidia_vaapi_driver.Prelude.{
  Bool-cases, inl, inr, ℕ, ◌+◌, ◌*◌, ◌/◌, ◌%◌, ◌^◌, ◌≤◌, ◌<◌, ◌≡◌, ◌↔◌, refl, some, List, [], ◌∷◌,
  ◌++◌, Bool, true, false, if◌then◌else◌, get_or, drop, length, arith,
}
use nvidia_vaapi_driver.Prelude.Bits.{bit_or_disjoint}
use nvidia_vaapi_driver.Codec.Utils.{
  bool_to_nat, frame_tag, tag_bytes, key_frame_bytes, build_vp8_frame_header,
}

-- The fields of the tag occupy bits of their own.
frame_tag_sum :
    (key show : Bool) (version first : ℕ)
    → version ≤ 7
    → first ≤ 0x7ffff
    → frame_tag key version show first
      ≡ (if key then 0 else 1) + version * 2 + bool_to_nat show * 2 ^ 4 + first * 2 ^ 5
frame_tag_sum key show version first v f =
    let k : ℕ = if key then 0 else 1 in
    let s = bool_to_nat show in
    let small : k ≤ 1 = ground arith in
    let bit_wide : s ≤ 1 = ground arith in
    let e1 : version * 2 % 2 ^ 32 ≡ version * 2 = omega arith in
    let e2 : s * 2 ^ 4 % 2 ^ 32 ≡ s * 2 ^ 4 = omega arith in
    let e3 : first * 2 ^ 5 % 2 ^ 32 ≡ first * 2 ^ 5 = omega arith in
    rw (
      e1,
      e2,
      e3,
      bit_or_disjoint 1 k version (omega arith),
      bit_or_disjoint 4 (k + version * 2) s (omega arith),
      bit_or_disjoint 5 (k + version * 2 + s * 2 ^ 4) first (omega arith),
    )

-- The little-endian number of the first three bytes.
abbrev pub tag : List ℕ → ℕ
tag header = get_or header 0 0 + get_or header 1 0 * 2 ^ 8 + get_or header 2 0 * 2 ^ 16

-- What a VP8 decoder reads: a bit for "not a key frame", three of version, one of visibility, and
-- the size of the first partition, from the three bytes that start the frame.
pub record Decodes (key show : Bool) (version first : ℕ) (header : List ℕ) : Type 0 where
  pub frame_type : (tag header % 2 ≡ 0) ↔ (key ≡ true)
  pub read_version : tag header / 2 % 8 ≡ version
  pub shown : (tag header / 16 % 2 ≡ 1) ↔ (show ≡ true)
  pub first_size : tag header / 32 ≡ first

-- For any fields in range nvBuildVP8FrameHeader succeeds, and the header that it writes reads back as
-- those fields; a key frame's header goes on with the start code and the dimensions. The bytes behind
-- the header stay as they were.
pub build_vp8-Decodes :
    (m : List ℕ) (key show : Bool) (version first width height : ℕ)
    → version ≤ 7
    → first ≤ 0x7ffff
    → width ≤ 0x3fff
    → height ≤ 0x3fff
    → (header : List ℕ) × (build_vp8_frame_header (some m) key version show first width height
        ≡ (length header, some (header ++ drop (length header) m)))
      × Decodes key show version first header
      × (key ≡ true
          → (get_or header 6 0 + get_or header 7 0 * 2 ^ 8 ≡ width)
            × (get_or header 8 0 + get_or header 9 0 * 2 ^ 8 ≡ height)
            × (get_or header 3 0 ∷ get_or header 4 0 ∷ get_or header 5 0 ∷ []
                ≡ 0x9d ∷ 0x01 ∷ 0x2a ∷ []))
unfolding build_vp8_frame_header
build_vp8-Decodes m true show version first width height v f w h =
    let e = frame_tag_sum true show version first v f in
    (
      tag_bytes (frame_tag true version show first) ++ key_frame_bytes width height,
      ground arith,
      ground (arith, e),
      λ _. (omega arith, omega arith, refl),
    )
build_vp8-Decodes m false show version first width height v f w h =
    let e = frame_tag_sum false show version first v f in
    (tag_bytes (frame_tag false version show first), ground arith, ground (arith, e), λ q. cc)

-- The start of a frame that carries the fields: bytes that decode to them, in a key frame with the
-- start code and the two dimensions in the low 14 bits of their words.
pub record Carries (key show : Bool) (version first width height : ℕ) (header : List ℕ)
    : Type 0 where
  pub bytes : (i : ℕ) → get_or header i 0 < 2 ^ 8
  pub decodes : Decodes key show version first header
  pub read_width : key ≡ true → (get_or header 6 0 + get_or header 7 0 * 2 ^ 8) % 2 ^ 14 ≡ width
  pub read_height : key ≡ true → (get_or header 8 0 + get_or header 9 0 * 2 ^ 8) % 2 ^ 14 ≡ height

-- Where nvBuildVP8FrameHeader answers 0 for a header of the caller, it has left the header as it was,
-- and no bytes at all could carry these fields.
pub build_vp8-rejects :
    (m : List ℕ) (key show : Bool) (version first width height : ℕ)
    → (build_vp8_frame_header (some m) key version show first width height).0 ≡ 0
    → (build_vp8_frame_header (some m) key version show first width height ≡ (0, some m))
      × ((header : List ℕ) → ¬ Carries key show version first width height header)
unfolding build_vp8_frame_header
build_vp8-rejects m key show version first width height e = (
  ground arith,
  λ header c.
      let b0 = c.bytes 0 in
      let b1 = c.bytes 1 in
      let b2 = c.bytes 2 in
      let v = c.decodes.read_version in
      let f = c.decodes.first_size in
      elim (Bool-cases key) [
        | inl k ↦ let w = c.read_width k in let h = c.read_height k in ground arith
        | inr k ↦ ground arith
      ],
)
