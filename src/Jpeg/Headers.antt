-- ===== src/Jpeg/Headers.antt =====
-- Where the segments of the image stand that src/jpeg.c puts together.
use nvidia_vaapi_driver.Prelude.{
  ℕ, zero, suc, ◌+◌, ◌<◌, ◌≡◌, inl, inr, refl, ap, ◌∙◌, Option, none, some, List, [], ◌∷◌, ◌++◌,
  Bool, true, false, ◌&&◌, ◌||◌, not, ◌==◌, Bool-cases, Option-cases, arith, append_assoc,
}
use nvidia_vaapi_driver.Jpeg.Types.{JpegSlice, JpegContext}
use nvidia_vaapi_driver.Jpeg.Writers.{
  get_used_quant_tables_mask, sof0_payload, sos_payload, has_bit, count_huff_values,
}
use nvidia_vaapi_driver.Jpeg.{Usage, all_same_interval, all_same_header, uses_va_huffman, va_tables}
use nvidia_vaapi_driver.Jpeg.Reader.{Segment}
use nvidia_vaapi_driver.Jpeg.Segments.{app0, quant_segments, sof0_segment, sos_segment}
use nvidia_vaapi_driver.Jpeg.HuffmanSegments.{
  counted_segments, required_segments, table_pair_segments,
}
use nvidia_vaapi_driver.Jpeg.RoundTrip.{quant_asked, huffman_asked, dri_asked, headers_asked}
use nvidia_vaapi_driver.Jpeg.Decode.{
  find_segment, frame_in, scan_in, interval_in, frame_header, scan_header, interval_in_force,
  asked_frame, asked_scan, IsTyped, IsTypedSlice, read_frame-sof0_payload, read_scan-sos_payload,
  read_interval-write16be,
}

-- No segment has this marker.
abbrev Without : ℕ → List Segment → Type 0
Without marker [] = Unit {0}
Without marker (s ∷ more) = ((s.marker == marker) ≡ false) × Without marker more

Without-append : (m : ℕ) (xs ys : List Segment) → Without m xs → Without m ys → Without m (xs ++ ys)
Without-append m [] ys a b = b
Without-append m (x ∷ xs) ys (h, a) b = (h, Without-append m xs ys a b)

find_segment-skip :
    (m : ℕ) (xs ys : List Segment) → Without m xs → find_segment m (xs ++ ys) ≡ find_segment m ys
unfolding find_segment
find_segment-skip m [] ys w = refl
find_segment-skip m (x ∷ xs) ys (h, w) = rw h (find_segment-skip m xs ys w)

quant_segments-Without :
    (m rounds table : ℕ) (tables : ℕ → ℕ → ℕ) (used : ℕ)
    → (0xdb == m) ≡ false
    → Without m (quant_segments rounds table tables used)
unfolding quant_segments
quant_segments-Without m zero table tables used e = tt
quant_segments-Without m (suc rounds) table tables used e =
    let ih = quant_segments-Without m rounds (table + 1) tables used e in
    elim (Bool-cases (has_bit used table)) [ inl h ↦ rw h (e, ih) | inr h ↦ rw h ih ]

quant_asked-Without :
    (m : ℕ) (jpeg : JpegContext) → (0xdb == m) ≡ false → Without m (quant_asked jpeg)
quant_asked-Without m jpeg e = elim (Option-cases (get_used_quant_tables_mask jpeg.pic_params)) [
  | inl h ↦ rw h tt
  | inr (used, h) ↦ rw h (quant_segments-Without m 4 0 jpeg.quant_tables used e)
]

counted_segments-Without :
    (m : ℕ) (codes values : ℕ → ℕ) (c id : ℕ) (counted : Option ℕ)
    → (0xc4 == m) ≡ false
    → Without m (counted_segments codes values c id counted)
counted_segments-Without m codes values c id none e = tt
counted_segments-Without m codes values c id (some n) e = (e, tt)

required_segments-Without :
    (m : ℕ) (required : Bool) (codes values : ℕ → ℕ) (max c id : ℕ)
    → (0xc4 == m) ≡ false
    → Without m (required_segments required codes values max c id)
required_segments-Without m false codes values max c id e = tt
required_segments-Without m true codes values max c id e =
    counted_segments-Without m codes values c id (count_huff_values codes max) e

huffman_asked-Without :
    (m : ℕ) (jpeg : JpegContext) (u : Usage)
    → (0xc4 == m) ≡ false
    → Without m (huffman_asked jpeg u)
huffman_asked-Without m jpeg u e =
    let h = jpeg.huffman_tables in
    let pair : (t : ℕ) → Without m (table_pair_segments h u.dc u.ac t) = λ t.
      Without-append m _ _
        (required_segments-Without m (has_bit u.dc t) (h t).num_dc_codes (h t).dc_values 12 0 t e)
        (required_segments-Without m (has_bit u.ac t) (h t).num_ac_codes (h t).ac_values 162 1 t
          e) in
    elim (Bool-cases (uses_va_huffman jpeg u && (va_tables jpeg u).0)) [
      | inl d ↦ rw d (Without-append m _ _ (pair 0) (pair 1))
      | inr d ↦ rw d (e, (e, (e, (e, tt))))
    ]

-- The interval of every slice behind the first is that of the first.
abbrev pub SameInterval : JpegSlice → List JpegSlice → Type 0
SameInterval first [] = Unit {0}
SameInterval first (s ∷ rest) =
    (s.restart_interval ≡ first.restart_interval) × SameInterval first rest

all_same_interval-true :
    (first : JpegSlice) (rest : List JpegSlice)
    → SameInterval first rest
    → all_same_interval first rest ≡ true
unfolding all_same_interval
all_same_interval-true first [] s = refl
all_same_interval-true first (t ∷ rest) (e, s) =
    let h : (t.restart_interval == first.restart_interval) ≡ true = ground arith in
    rw (h, all_same_interval-true first rest s) refl

dri_asked-Without :
    (m : ℕ) (first : JpegSlice) (rest : List JpegSlice)
    → (0xdd == m) ≡ false
    → Without m (dri_asked first rest)
dri_asked-Without m first rest e =
    elim (Bool-cases (
      not (first.restart_interval == 0)
      && (all_same_interval first rest || not (all_same_header first rest)))) [
        | inl h ↦ rw h (e, tt)
        | inr h ↦ rw h tt
      ]

module _ (jpeg : JpegContext) (u : Usage) (first : JpegSlice) (rest : List JpegSlice) where
  abbrev all_headers : List Segment
  all_headers = headers_asked jpeg u first rest ++ sos_segment first ∷ []

  abbrev front : List Segment
  front = app0 ∷ quant_asked jpeg

  abbrev middle : List Segment
  middle = sof0_segment jpeg.pic_params ∷ huffman_asked jpeg u

  regrouped : all_headers ≡ front ++ (middle ++ (dri_asked first rest ++ sos_segment first ∷ []))
  regrouped =
      append_assoc (front ++ middle) (dri_asked first rest) (sos_segment first ∷ [])
      ∙ append_assoc front middle (dri_asked first rest ++ sos_segment first ∷ [])

  front-Without : (m : ℕ) → (0xe0 == m) ≡ false → (0xdb == m) ≡ false → Without m front
  front-Without m a b = (a, quant_asked-Without m jpeg b)

  found_frame : find_segment 0xc0 all_headers ≡ some (sof0_payload jpeg.pic_params)
  unfolding find_segment
  found_frame =
      ap (find_segment 0xc0) regrouped
      ∙ find_segment-skip 0xc0 front _ (front-Without 0xc0 refl refl)

  middle-Without : (m : ℕ) → (0xc0 == m) ≡ false → (0xc4 == m) ≡ false → Without m middle
  middle-Without m a b = (a, huffman_asked-Without m jpeg u b)

  found_behind :
      (m : ℕ)
      → (0xe0 == m) ≡ false
      → (0xdb == m) ≡ false
      → (0xc0 == m) ≡ false
      → (0xc4 == m) ≡ false
      → find_segment m all_headers ≡ find_segment m (dri_asked first rest ++ sos_segment first ∷ [])
  found_behind m a b c d =
      ap (find_segment m) regrouped
      ∙ find_segment-skip m front _ (front-Without m a b)
      ∙ find_segment-skip m middle _ (middle-Without m c d)

  found_scan : find_segment 0xda all_headers ≡ some (sos_payload first)
  unfolding find_segment
  found_scan =
      found_behind 0xda refl refl refl refl
      ∙ find_segment-skip 0xda (dri_asked first rest) (sos_segment first ∷ [])
          (dri_asked-Without 0xda first rest refl)

  -- The first frame header has the dimensions and the components of the picture.
  pub frame_header-asked :
      IsTyped jpeg.pic_params → frame_header all_headers ≡ some (asked_frame jpeg.pic_params)
  frame_header-asked t = ap frame_in found_frame ∙ (read_frame-sof0_payload jpeg.pic_params t)

  -- The scan header has the components and the tables of the first slice.
  pub scan_header-asked : IsTypedSlice first → scan_header all_headers ≡ some (asked_scan first)
  scan_header-asked f = ap scan_in found_scan ∙ (read_scan-sos_payload first f)

  interval-none :
      (first.restart_interval == 0) ≡ true
      → interval_in_force 0 (dri_asked first rest ++ sos_segment first ∷ [])
        ≡ first.restart_interval
  unfolding find_segment
  interval-none h = let e : 0 ≡ first.restart_interval = ground arith in rw h e

  is_asked :
      (all_same_header first rest ≡ true → SameInterval first rest)
      → (all_same_interval first rest || not (all_same_header first rest)) ≡ true
  is_asked same = elim (Bool-cases (all_same_header first rest)) [
    | inl h ↦ rw (all_same_interval-true first rest (same h)) refl
    | inr h ↦ let e : not (all_same_header first rest) ≡ true = rw h refl in ground arith
  ]

  interval-some :
      first.restart_interval < 65536
      → (first.restart_interval == 0) ≡ false
      → (all_same_interval first rest || not (all_same_header first rest)) ≡ true
      → interval_in_force 0 (dri_asked first rest ++ sos_segment first ∷ [])
        ≡ first.restart_interval
  unfolding find_segment
  interval-some small h k = rw (h, k) (read_interval-write16be first.restart_interval small)

  -- The restart interval in force is that of the first slice.
  pub interval-asked :
      first.restart_interval < 65536
      → (all_same_header first rest ≡ true → SameInterval first rest)
      → interval_in_force 0 all_headers ≡ first.restart_interval
  interval-asked small same =
      let at = ap (interval_in 0) (found_behind 0xdd refl refl refl refl) in
      elim (Bool-cases (first.restart_interval == 0)) [
        | inl none_asked ↦ at ∙ interval-none none_asked
        | inr asked ↦ at ∙ interval-some small asked (is_asked same)
      ]
