-- ===== src/Jpeg/RoundTrip.antt =====
-- The image that src/jpeg.c puts together, read back by the reader of the headers.
use nvidia_vaapi_driver.Prelude.{
  ℕ, ◌≤◌, ◌≡◌, inl, inr, refl, ap, sym, ◌∙◌, Option, none, some, List, [], ◌∷◌, ◌++◌, Bool, true,
  false, ◌&&◌, ◌||◌, not, ◌==◌, if◌then◌else◌, Bool-cases, Option-cases, arith, append_assoc,
  append-nil,
}
use Prim.Native.Nat.{bit_and}
use nvidia_vaapi_driver.Jpeg.Types.{JpegSlice, JpegContext}
use nvidia_vaapi_driver.Jpeg.Tables.{jfif_header}
use nvidia_vaapi_driver.Jpeg.Writers.{
  write_dqt, get_used_quant_tables_mask, write_dri, write_sof0, write_sos,
}
use nvidia_vaapi_driver.Jpeg.{
  Usage, slice_data, copy_slices, write_scans, with_eoi, ends_with_eoi, huffman_segments,
  global_dri, scans, frame_from, va_tables, uses_va_huffman, all_same_interval, all_same_header,
}
use nvidia_vaapi_driver.Jpeg.Reader.{
  Segment, written, all_written, AllHeaders, AllHeaders-append, all_written-append, read_headers,
  read_headers-written,
}
use nvidia_vaapi_driver.Jpeg.Segments.{
  Writes, app0, quant_segments, write_tables-Writes, sof0_segment, write_sof0-IsHeader, dri_segment,
  sos_segment, write_sos-IsScan,
}
use nvidia_vaapi_driver.Jpeg.HuffmanSegments.{
  standard_segments, write_standard-Writes, va_huffman_segments, write_va_huffman_tables-Writes,
}

abbrev pub quant_of : (ℕ → ℕ → ℕ) → Option ℕ → List Segment
quant_of tables none = []
quant_of tables (some used) = quant_segments 4 0 tables used

-- The quantisation tables that the picture uses.
abbrev pub quant_asked : JpegContext → List Segment
quant_asked jpeg = quant_of jpeg.quant_tables (get_used_quant_tables_mask jpeg.pic_params)

-- The Huffman tables of libva where they are all there, else the standard ones.
abbrev pub huffman_asked : JpegContext → Usage → List Segment
huffman_asked jpeg u =
    if uses_va_huffman jpeg u && (va_tables jpeg u).0
    then va_huffman_segments jpeg.huffman_tables u.dc u.ac
    else standard_segments

-- The restart interval that is written before the first scan: none where one header stands for slices
-- of different intervals.
abbrev pub dri_asked : JpegSlice → List JpegSlice → List Segment
dri_asked first rest =
    if not (first.restart_interval == 0)
      && (all_same_interval first rest || not (all_same_header first rest))
    then dri_segment first.restart_interval ∷ []
    else []

abbrev pub headers_asked : JpegContext → Usage → JpegSlice → List JpegSlice → List Segment
headers_asked jpeg u first rest =
    app0 ∷ quant_asked jpeg
    ++ sof0_segment jpeg.pic_params ∷ huffman_asked jpeg u
    ++ dri_asked first rest

-- What stands behind the first start of scan.
abbrev pub scan_data : List ℕ → JpegSlice → List JpegSlice → List ℕ
scan_data memory first rest =
    if all_same_header first rest
    then copy_slices memory (first ∷ rest)
    else slice_data memory first ++ write_scans (all_same_interval first rest) memory rest

write_dqt-Writes :
    (jpeg : JpegContext)
    → Writes
        (write_dqt jpeg.quant_tables jpeg.pic_params jpeg.valid_quant_tables_mask)
        (quant_asked jpeg)
unfolding write_dqt
write_dqt-Writes jpeg =
    let valid = jpeg.valid_quant_tables_mask in
    elim (Option-cases (get_used_quant_tables_mask jpeg.pic_params)) [
      | inl e ↦ rw e (record { bytes = λ t. cc; headers = λ t. cc })
      | inr (used, e) ↦ elim (Bool-cases (not (bit_and valid used == used))) [
        | inl h ↦ rw (e, h) (record { bytes = λ t. cc; headers = λ t. cc })
        | inr h ↦ rw (e, h) (write_tables-Writes 4 0 jpeg.quant_tables used)
      ]
    ]

huffman_segments-Writes :
    (jpeg : JpegContext) (u : Usage)
    → (huffman_segments jpeg u ≡ all_written (huffman_asked jpeg u))
      × AllHeaders (huffman_asked jpeg u)
unfolding huffman_segments
huffman_segments-Writes jpeg u =
    let va =
      write_va_huffman_tables-Writes jpeg.huffman_tables u.dc u.ac jpeg.valid_huffman_dc_mask
        jpeg.valid_huffman_ac_mask in
    elim (Bool-cases (uses_va_huffman jpeg u && (va_tables jpeg u).0)) [
      | inl h ↦
          let done : (va_tables jpeg u).0 ≡ true = ground arith in
          rw h (va.bytes done, va.headers done)
      | inr h ↦ rw h (write_standard-Writes.bytes refl, write_standard-Writes.headers refl)
    ]

dri_asked-AllHeaders :
    (first : JpegSlice) (rest : List JpegSlice) → AllHeaders (dri_asked first rest)
dri_asked-AllHeaders first rest =
    elim (Bool-cases (
      not (first.restart_interval == 0)
      && (all_same_interval first rest || not (all_same_header first rest)))) [
        | inl h ↦ rw h (record { short = omega arith; no_scan = refl }, tt)
        | inr h ↦ rw h tt
      ]

dri_asked-written :
    (first : JpegSlice) (asked : Bool)
    → all_written (if asked then dri_segment first.restart_interval ∷ [] else [])
      ≡ (if asked then write_dri first.restart_interval else [])
unfolding all_written
dri_asked-written first true = refl
dri_asked-written first false = refl

-- Where the marker of the restart interval stands, for the bytes `m` of the marker.
dri-place :
    (no_interval same_header same_interval : Bool) (m s c d w : List ℕ)
    → (if same_interval && not no_interval then m else [])
        ++ (if same_header
            then s ++ c
            else (if not same_interval && not no_interval then m else []) ++ s ++ d ++ w)
      ≡ (if not no_interval && (same_interval || not same_header) then m else [])
        ++ s
        ++ (if same_header then c else d ++ w)
dri-place true true true m s c d w = refl
dri-place true true false m s c d w = refl
dri-place true false true m s c d w = simp append_assoc
dri-place true false false m s c d w = simp append_assoc
dri-place false true true m s c d w = simp append_assoc
dri-place false true false m s c d w = refl
dri-place false false true m s c d w = simp append_assoc
dri-place false false false m s c d w = simp append_assoc

scans-written :
    (memory : List ℕ) (first : JpegSlice) (rest : List JpegSlice)
    → global_dri first rest ++ scans memory first rest
      ≡ all_written (dri_asked first rest) ++ write_sos first ++ scan_data memory first rest
unfolding global_dri scans write_scans
scans-written memory first rest =
    let same = all_same_interval first rest in
    dri-place (first.restart_interval == 0) (all_same_header first rest) same
      (write_dri first.restart_interval) (write_sos first) (copy_slices memory (first ∷ rest))
      (slice_data memory first) (write_scans same memory rest)
    ∙ ap (λ l. l ++ write_sos first ++ scan_data memory first rest)
        (sym (dri_asked-written first _))

regroup :
    (q f h x s d e : List ℕ)
    → q ++ f ++ h ++ (x ++ s ++ d) ++ e ≡ q ++ (f ++ h) ++ x ++ s ++ (d ++ e)
regroup q f h x s d e = simp append_assoc

front-congr :
    (q q' f f' h h' s s' e : List ℕ)
    → q ≡ q'
    → f ≡ f'
    → h ≡ h'
    → s ≡ s'
    → jfif_header ++ q ++ f ++ h ++ s ++ e ≡ jfif_header ++ (q' ++ f' ++ h' ++ s' ++ e)
front-congr q q' f f' h h' s s' e a b c d = rw (a, b, c, d) refl

module _ (jpeg : JpegContext) (u : Usage) (memory : List ℕ) (first : JpegSlice)
    (rest : List JpegSlice) where
  abbrev before_end : List ℕ
  before_end =
      jfif_header
      ++ (write_dqt jpeg.quant_tables jpeg.pic_params jpeg.valid_quant_tables_mask).1
      ++ write_sof0 jpeg.pic_params
      ++ huffman_segments jpeg u
      ++ global_dri first rest
      ++ scans memory first rest

  -- What is put behind the last scan.
  abbrev pub end_of_image : List ℕ
  end_of_image = if ends_with_eoi before_end then [] else 0xff ∷ 0xd9 ∷ []

module _ (jpeg : JpegContext) (u : Usage) (memory : List ℕ) (first : JpegSlice)
    (rest : List JpegSlice)
    (tables : (write_dqt jpeg.quant_tables jpeg.pic_params jpeg.valid_quant_tables_mask).0 ≡ true)
    (few : jpeg.pic_params.num_components ≤ 4) (few_scan : first.num_components ≤ 4) where
  headers_asked-AllHeaders : AllHeaders (headers_asked jpeg u first rest)
  headers_asked-AllHeaders =
      let q = (write_dqt-Writes jpeg).headers tables in
      let f = (write_sof0-IsHeader jpeg.pic_params few).1 in
      let h = (huffman_segments-Writes jpeg u).1 in
      let app : AllHeaders (app0 ∷ []) = (record { short = omega arith; no_scan = refl }, tt) in
      AllHeaders-append
        (app0 ∷ quant_asked jpeg ++ sof0_segment jpeg.pic_params ∷ huffman_asked jpeg u)
        (dri_asked first rest)
        (AllHeaders-append (app0 ∷ quant_asked jpeg)
          (sof0_segment jpeg.pic_params ∷ huffman_asked jpeg u) (app.0, q) (f, h))
        (dri_asked-AllHeaders first rest)

  headers_asked-written :
      all_written (headers_asked jpeg u first rest)
      ≡ written app0
        ++ (all_written (quant_asked jpeg)
            ++ (written (sof0_segment jpeg.pic_params) ++ all_written (huffman_asked jpeg u))
            ++ all_written (dri_asked first rest))
  unfolding all_written
  headers_asked-written =
      let a = app0 ∷ quant_asked jpeg in
      let b = sof0_segment jpeg.pic_params ∷ huffman_asked jpeg u in
      let d = dri_asked first rest in
      all_written-append (a ++ b) d ∙ ap (λ l. l ++ all_written d) (all_written-append a b)

  before_end-written :
      (tail : List ℕ)
      → (before_end jpeg u memory first rest) ++ tail
        ≡ 0xff
          ∷ 0xd8
          ∷ (all_written (headers_asked jpeg u first rest)
              ++ written (sos_segment first)
              ++ (scan_data memory first rest ++ tail))
  before_end-written tail =
      let q = all_written (quant_asked jpeg) in
      let f = written (sof0_segment jpeg.pic_params) in
      let h = all_written (huffman_asked jpeg u) in
      let x = all_written (dri_asked first rest) in
      let s = written (sos_segment first) in
      let d = scan_data memory first rest in
      let front =
        jfif_header
        ++ (write_dqt jpeg.quant_tables jpeg.pic_params jpeg.valid_quant_tables_mask).1
        ++ write_sof0 jpeg.pic_params
        ++ huffman_segments jpeg u in
      ap (λ l. l ++ tail)
        (append_assoc front (global_dri first rest) (scans memory first rest)
          ∙ ap (λ l. front ++ l) (scans-written memory first rest))
      ∙ front-congr _ _ _ _ _ _ _ _ tail ((write_dqt-Writes jpeg).bytes tables)
          (write_sof0-IsHeader jpeg.pic_params few).0 (huffman_segments-Writes jpeg u).0
          (ap (λ l. x ++ l ++ d) (write_sos-IsScan first few_scan).0)
      ∙ ap (λ l. jfif_header ++ l) (regroup q f h x s d tail)
      ∙ ap (λ l. 0xff ∷ 0xd8 ∷ l ++ s ++ (d ++ tail)) (sym headers_asked-written)

  with_eoi-append :
      with_eoi (before_end jpeg u memory first rest)
      ≡ (before_end jpeg u memory first rest) ++ (end_of_image jpeg u memory first rest)
  with_eoi-append = elim (Bool-cases (ends_with_eoi (before_end jpeg u memory first rest))) [
    | inl h ↦ rw h (sym (append-nil (before_end jpeg u memory first rest)))
    | inr h ↦ rw h refl
  ]

  pub frame_from-readable :
      read_headers (
        frame_from
          (jfif_header
            ++ (write_dqt jpeg.quant_tables jpeg.pic_params jpeg.valid_quant_tables_mask).1)
          jpeg
          u
          memory
          first
          rest)
      ≡ some (
        headers_asked jpeg u first rest ++ sos_segment first ∷ [],
        scan_data memory first rest ++ (end_of_image jpeg u memory first rest),
      )
  unfolding frame_from
  frame_from-readable =
      ap read_headers (with_eoi-append ∙ before_end-written (end_of_image jpeg u memory first rest))
      ∙ read_headers-written (headers_asked jpeg u first rest) (sos_segment first)
          (scan_data memory first rest ++ (end_of_image jpeg u memory first rest))
          headers_asked-AllHeaders (write_sos-IsScan first few_scan).1 refl
