-- ===== src/Codec/PictureIndex/Choice.antt =====
-- Which decode surface nvdSelectPictureIndex chooses, and when it finds none.
use nvidia_vaapi_driver.Prelude.{
  ℕ, zero, suc, ◌+◌, ◌-◌, ◌%◌, ◌^◌, ◌≤◌, ◌<◌, ◌≡◌, ◌⊎◌, inl, inr, none, some, Bool, true, false,
  ◌||◌, not, ltb, ◌==◌, arith, Bool-cases, sym, ◌∙◌,
}
use native.Mathlib.Decide.{dec_lt, ℕ_discrete}
use native.Mathlib.Nat.{mod-lt, mod-eq_of_lt}
use Prim.Native.Nat.{bit_and, bit_or}
use nvidia_vaapi_driver.Prelude.Bits.{
  bit, bit-bit_and, bit-bit_or, complement, bit-complement, bit-low_mask, bit_and_single, pow_pos,
  bit-zero, bit_or-lt,
}
use nvidia_vaapi_driver.Codec.PictureIndex.{
  max_decode_surfaces, limit_mask, available_mask, first_available, select_picture_index,
}

-- A surface that is neither a reference nor being resolved.
abbrev pub is_free : ℕ → ℕ → ℕ → Bool
is_free active busy i = not (bit i active || bit i busy)

bit-limit_mask : (i limit : ℕ) → limit ≤ 32 → i < limit → bit i (limit_mask limit) ≡ true
unfolding limit_mask
bit-limit_mask i limit h b = ground (arith, bit-low_mask i limit, bit-low_mask i 32)

bit-available :
    (i limit active busy : ℕ)
    → limit ≤ 32
    → i < limit
    → bit_or active busy < 2 ^ 32
    → bit i (available_mask limit active busy) ≡ is_free active busy i
unfolding available_mask
bit-available i limit active busy h b small = rw (
  bit-bit_and i (limit_mask limit) (complement 32 (bit_or active busy)),
  bit-limit_mask i limit h b,
  bit-complement i 32 (bit_or active busy) (omega arith) small,
  bit-bit_or i active busy,
)

-- The C test `(available & (1U << index)) != 0`.
mask_test : (a i : ℕ) → not (bit_and a (2 ^ i) == 0) ≡ bit i a
mask_test a i = ground (arith, bit_and_single a i, pow_pos i)

-- The index that the search looks at in round `t`.
abbrev pub candidate : ℕ → ℕ → ℕ → ℕ
candidate start limit t = (start + t) % limit

first_available-eq-some :
    (rounds offset start limit available i : ℕ)
    → first_available rounds offset start limit available ≡ some i
    → (t : ℕ) × (offset ≤ t)
      × (t < offset + rounds)
      × (i ≡ candidate start limit t)
      × (bit i available ≡ true)
      × ((u : ℕ) → offset ≤ u → u < t → bit (candidate start limit u) available ≡ false)
unfolding first_available
first_available-eq-some zero offset start limit available i h = cc
first_available-eq-some (suc rounds) offset start limit available i h =
    let index = candidate start limit offset in
    elim (Bool-cases (bit index available)) [
      | inl free ↦
          let e : some index ≡ some i = rw (mask_test available index, free) at h in
          (
            offset,
            omega arith,
            omega arith,
            ground arith,
            ground arith,
            λ u a b. absurd (omega arith),
          )
      | inr used ↦
          let e : first_available rounds (offset + 1) start limit available ≡ some i =
            rw (mask_test available index, used) at h in
          let (t, lo, hi, eq, found, before) =
            first_available-eq-some rounds (offset + 1) start limit available i e in
          (
            t,
            omega arith,
            omega arith,
            eq,
            found,
            λ u a b. elim (ℕ_discrete u offset) [
              | yes same ↦ rw same used
              | no other ↦ before u (omega arith) b
            ],
          )
    ]

first_available-eq-none :
    (rounds offset start limit available u : ℕ)
    → first_available rounds offset start limit available ≡ none
    → offset ≤ u
    → u < offset + rounds
    → bit (candidate start limit u) available ≡ false
unfolding first_available
first_available-eq-none zero offset start limit available u h a b = absurd (omega arith)
first_available-eq-none (suc rounds) offset start limit available u h a b =
    let index = candidate start limit offset in
    elim (Bool-cases (bit index available)) [
      | inl free ↦ let e : some index ≡ none = rw (mask_test available index, free) at h in cc
      | inr used ↦
          let e : first_available rounds (offset + 1) start limit available ≡ none =
            rw (mask_test available index, used) at h in
          elim (ℕ_discrete u offset) [
            | yes same ↦ rw same used
            | no other ↦
                first_available-eq-none rounds (offset + 1) start limit available u e (omega arith)
                  (omega arith)
          ]
    ]

mod_once : (x n : ℕ) → x < n → (x + n) % n ≡ x
mod_once x n h = grind arith

-- Every index below the limit comes up in one of the rounds.
round_of :
    (start limit i : ℕ)
    → start < limit
    → i < limit
    → (t : ℕ) × (t < limit) × (candidate start limit t ≡ i)
round_of start limit i s h = elim (dec_lt i start) [
  | yes before ↦
      let e : start + (i + limit - start) ≡ i + limit = omega arith in
      (i + limit - start, omega arith, rw e (mod_once i limit h))
  | no after ↦
      let e : start + (i - start) ≡ i = omega arith in
      (i - start, omega arith, rw e (mod-eq_of_lt h))
]

module _ (allocated limit active busy cursor : ℕ) (active_word : active < 2 ^ 32)
    (busy_word : busy < 2 ^ 32) where
  -- The first surface not yet allocated while there is one; else the first free one from the cursor
  -- on, going round at the limit.
  pub record Chosen (i : ℕ) : Type 0 where
    pub in_range : i < limit
    pub few : limit ≤ max_decode_surfaces
    pub how :
        (allocated < limit) × (i ≡ allocated)
        ⊎ (limit ≤ allocated)
          × (is_free active busy i ≡ true)
          × ((t : ℕ) × (i ≡ candidate (cursor % limit) limit t)
              × ((u : ℕ)
                  → u < t
                  → is_free active busy (candidate (cursor % limit) limit u) ≡ false))

  open_bits :
      (i : ℕ)
      → limit ≤ 32
      → i < limit
      → bit i (available_mask limit active busy) ≡ is_free active busy i
  open_bits i few h =
      bit-available i limit active busy few h (bit_or-lt 32 active busy active_word busy_word)

  searched-Chosen :
      (i : ℕ)
      → 0 < limit
      → limit ≤ max_decode_surfaces
      → limit ≤ allocated
      → first_available limit 0 (cursor % limit) limit (available_mask limit active busy) ≡ some i
      → Chosen i
  searched-Chosen i pos few full e =
      let start = cursor % limit in
      let available = available_mask limit active busy in
      let (t, lo, hi, eq, found, before) =
        first_available-eq-some limit 0 start limit available i e in
      let inside : i < limit = rw eq (mod-lt (start + t) pos) in
      record {
        in_range = inside;
        few = few;
        how = inr (
          full,
          sym (open_bits i few inside) ∙ found,
          (
            t,
            eq,
            λ u b.
                sym (open_bits (candidate start limit u) few (mod-lt (start + u) pos))
                ∙ before u (omega arith) b,
          ),
        );
      }

  -- nvdSelectPictureIndex never answers with a reference, a surface that is being resolved, or an
  -- index out of range, and takes the first that it may.
  pub select_picture_index-Chosen :
      (i : ℕ) → select_picture_index allocated limit active busy cursor ≡ some i → Chosen i
  unfolding select_picture_index
  select_picture_index-Chosen i h = elim (dec_lt allocated limit) [
    | yes spare ↦ record {
      in_range = ground arith;
      few = ground arith;
      how = inl (spare, ground arith);
    }
    | no full ↦ searched-Chosen i (ground arith) (ground arith) (omega arith) (ground arith)
  ]

  exhausted :
      (i : ℕ)
      → limit ≤ max_decode_surfaces
      → i < limit
      → first_available limit 0 (cursor % limit) limit (available_mask limit active busy) ≡ none
      → is_free active busy i ≡ false
  exhausted i few h e =
      let start = cursor % limit in
      let (t, hi, eq) = round_of start limit i (mod-lt cursor (omega arith)) h in
      sym (open_bits i few h)
      ∙ rw (← eq) (
          first_available-eq-none limit 0 start limit (available_mask limit active busy) t e
            (omega arith) (omega arith))

  no_bits :
      (i : ℕ)
      → limit ≤ 32
      → i < limit
      → available_mask limit active busy ≡ 0
      → is_free active busy i ≡ false
  no_bits i few h e = sym (open_bits i few h) ∙ rw e (bit-zero i)

  -- It answers -1 only for a limit out of range, or when every surface below the limit is taken.
  pub select_picture_index-eq-none :
      select_picture_index allocated limit active busy cursor ≡ none
      → (limit ≡ 0)
        ⊎ (max_decode_surfaces < limit)
        ⊎ (limit ≤ allocated) × ((i : ℕ) → i < limit → is_free active busy i ≡ false)
  unfolding select_picture_index
  select_picture_index-eq-none h = elim (Bool-cases (limit == 0 || ltb max_decode_surfaces limit)) [
    | inl out ↦ ground arith
    | inr fine ↦ inr (
        inr (
          ground arith,
          λ i b. elim (Bool-cases (available_mask limit active busy == 0)) [
            | inl nothing ↦ no_bits i (ground arith) b (ground arith)
            | inr more ↦ exhausted i (ground arith) b (ground arith)
          ],
        ))
  ]
