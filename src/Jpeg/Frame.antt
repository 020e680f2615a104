-- ===== src/Jpeg/Frame.antt =====
-- The checks of the slices, and the length of a frame against what is reserved for it.
use nvidia_vaapi_driver.Prelude.{
  ℕ, zero, suc, ◌+◌, ◌-◌, ◌*◌, ◌≤◌, ◌≡◌, inl, inr, none, some, List, [], ◌∷◌, ◌++◌, true, false,
  ◌||◌, not, ltb, ◌==◌, if◌then◌else◌, Bool-cases, Option-cases, arith, length, length-append, drop,
  length-take, size_max, add64,
}
use nvidia_vaapi_driver.Jpeg.Types.{JpegPicParams, JpegSlice, JpegContext}
use nvidia_vaapi_driver.Jpeg.Writers.{write_dri, write_sof0, write_sos, scan_components}
use nvidia_vaapi_driver.Jpeg.{
  Usage, Collected, validate_slice, check_slices, out_of_range, slice_data, copy_slices,
  write_scans, with_eoi, huffman_segments, global_dri, scans, frame_from,
}
use nvidia_vaapi_driver.Jpeg.Bounds.{length-write_sof0, length-standard_tables, va_tables_bound}

-- A slice that the checks let pass.
pub record IsChecked (data_size : ℕ) (s : JpegSlice) : Type 0 where
  pub few : s.num_components ≤ 4
  pub inside : s.slice_data_offset + s.slice_data_size ≤ data_size

abbrev pub AllChecked : ℕ → List JpegSlice → Type 0
AllChecked data_size [] = Unit {0}
AllChecked data_size (s ∷ rest) = IsChecked data_size s × AllChecked data_size rest

unfoldable pub total_size : List JpegSlice → ℕ
total_size [] = 0
total_size (s ∷ rest) = s.slice_data_size + total_size rest

validate_slice-few :
    (pic : JpegPicParams) (s : JpegSlice) (u u' : Usage)
    → validate_slice pic s u ≡ some u'
    → s.num_components ≤ 4
unfolding validate_slice
validate_slice-few pic s u u' h = ground arith

pub check_slices-AllChecked :
    (flag : ℕ) (pic : JpegPicParams) (data_size : ℕ) (slices : List JpegSlice) (t t' : Collected)
    → t.total ≤ size_max
    → check_slices flag pic data_size slices t ≡ some t'
    → (t'.total ≡ t.total + total_size slices) × AllChecked data_size slices
unfolding check_slices total_size
check_slices-AllChecked flag pic data_size [] t t' b h = (ground arith, tt)
check_slices-AllChecked flag pic data_size (s ∷ rest) t t' b h =
    elim (Bool-cases (s.slice_data_flag == flag)) [
      | inr other ↦ let h' : none ≡ some t' = rw (check_slices, other) at h in cc
      | inl same ↦ elim (Option-cases (validate_slice pic s t.usage)) [
        | inl e ↦ let h' : none ≡ some t' = rw (check_slices, same, e) at h in cc
        | inr (u, e) ↦
            elim (Bool-cases
              (out_of_range data_size s || ltb (size_max - t.total) s.slice_data_size)) [
                | inl out ↦ let h' : none ≡ some t' = rw (check_slices, same, e, out) at h in cc
                | inr fine ↦
                    let sum : add64 t.total s.slice_data_size ≡ t.total + s.slice_data_size =
                      ground arith in
                    let (total, all) =
                      check_slices-AllChecked flag pic data_size rest
                        (record { total = add64 t.total s.slice_data_size; usage = u }) t'
                        (ground arith) (rw (check_slices, same, e, fine) at h) in
                    (
                      omega (arith, total, sum),
                      (
                        record {
                          few = validate_slice-few pic s t.usage u e;
                          inside = ground arith;
                        },
                        all,
                      ),
                    )
              ]
      ]
    ]

length-slice_data :
    (memory : List ℕ) (s : JpegSlice) → length (slice_data memory s) ≤ s.slice_data_size
length-slice_data memory s =
    omega (arith, length-take s.slice_data_size (drop s.slice_data_offset memory))

pub length-scan_components :
    (rounds i : ℕ) (s : JpegSlice) → length (scan_components rounds i s) ≡ rounds * 2
unfolding scan_components
length-scan_components zero i s = omega arith
length-scan_components (suc rounds) i s = omega (arith, length-scan_components rounds (i + 1) s)

pub length-write_sos : (s : JpegSlice) → length (write_sos s) ≡ 8 + s.num_components * 2
unfolding write_sos
length-write_sos s =
    let c = scan_components s.num_components 0 s in
    omega (arith, length-scan_components s.num_components 0 s, length-append c (0 ∷ 63 ∷ 0 ∷ []))

length-copy_slices :
    (memory : List ℕ) (slices : List JpegSlice)
    → length (copy_slices memory slices) ≤ total_size slices
unfolding copy_slices total_size
length-copy_slices memory [] = omega arith
length-copy_slices memory (s ∷ rest) = omega (
  arith,
  length-append (slice_data memory s) (copy_slices memory rest),
  length-slice_data memory s,
  length-copy_slices memory rest,
)

length-four :
    (a b c d : List ℕ) → length (a ++ b ++ c ++ d) ≡ length a + length b + length c + length d
length-four a b c d =
    omega (arith, length-append (a ++ b ++ c) d, length-append (a ++ b) c, length-append a b)

scan_bound :
    (dri memory rest : List ℕ) (data_size k n total : ℕ) (s : JpegSlice)
    → length dri ≤ k
    → IsChecked data_size s
    → length rest ≤ n + total
    → length (dri ++ write_sos s ++ slice_data memory s ++ rest)
      ≤ k + 16 + n + (s.slice_data_size + total)
scan_bound dri memory rest data_size k n total s short c b = omega (
  arith,
  short,
  b,
  c.few,
  length-four dri (write_sos s) (slice_data memory s) rest,
  length-write_sos s,
  length-slice_data memory s,
)

-- With one restart interval for all no slice brings its own.
length-write_scans_same :
    (memory : List ℕ) (data_size : ℕ) (slices : List JpegSlice)
    → AllChecked data_size slices
    → length (write_scans true memory slices) ≤ length slices * 16 + total_size slices
unfolding write_scans total_size
length-write_scans_same memory data_size [] all = omega arith
length-write_scans_same memory data_size (s ∷ rest) (c, all) = omega (
  arith,
  scan_bound [] memory (write_scans true memory rest) data_size 0 (length rest * 16)
      (total_size rest) s (omega arith) c (length-write_scans_same memory data_size rest all),
)

length-write_scans :
    (memory : List ℕ) (data_size : ℕ) (slices : List JpegSlice)
    → AllChecked data_size slices
    → length (write_scans false memory slices) ≤ length slices * 22 + total_size slices
unfolding write_scans total_size
length-write_scans memory data_size [] all = omega arith
length-write_scans memory data_size (s ∷ rest) (c, all) =
    let dri = if not (s.restart_interval == 0) then write_dri s.restart_interval else [] in
    let short : length dri ≤ 6 = ground arith in
    omega (
      arith,
      scan_bound dri memory (write_scans false memory rest) data_size 6 (length rest * 22)
          (total_size rest) s short c (length-write_scans memory data_size rest all),
    )

-- The scans with the restart interval before them.
length-scans :
    (memory : List ℕ) (data_size : ℕ) (first : JpegSlice) (rest : List JpegSlice)
    → AllChecked data_size (first ∷ rest)
    → length (global_dri first rest) + length (scans memory first rest)
      ≤ length (first ∷ rest) * 22 + total_size (first ∷ rest)
unfolding global_dri scans
length-scans memory data_size first rest all =
    let all_slices = first ∷ rest in
    ground (
      arith,
      length-write_sos first,
      length-append (write_sos first) (copy_slices memory all_slices),
      length-copy_slices memory all_slices,
      length-write_scans memory data_size all_slices all,
      length-write_scans_same memory data_size all_slices all,
      all.0.few,
    )

with_eoi_bound : (xs : List ℕ) → length (with_eoi xs) ≤ length xs + 2
with_eoi_bound xs = ground (arith, length-append xs (0xff ∷ 0xd9 ∷ []))

huffman_segments_bound : (jpeg : JpegContext) (u : Usage) → length (huffman_segments jpeg u) ≤ 432
unfolding huffman_segments
huffman_segments_bound jpeg u = ground (
  arith,
  length-standard_tables,
  va_tables_bound jpeg.huffman_tables u.dc u.ac jpeg.valid_huffman_dc_mask
      jpeg.valid_huffman_ac_mask,
)

-- The frame is no longer than the bound that is reserved, which does not wrap around for as many as
-- 2 ^ 31 slices of 32-bit sizes.
pub frame_from_bound :
    (start : List ℕ) (jpeg : JpegContext) (u : Usage) (memory : List ℕ) (data_size : ℕ)
    (first : JpegSlice) (rest : List JpegSlice)
    → length start ≤ 296
    → AllChecked data_size (first ∷ rest)
    → length (frame_from start jpeg u memory first rest)
      ≤ 740
        + jpeg.pic_params.num_components * 3
        + length (first ∷ rest) * 22
        + total_size (first ∷ rest)
unfolding frame_from
frame_from_bound start jpeg u memory data_size first rest short all =
    let sof = write_sof0 jpeg.pic_params in
    let dht = huffman_segments jpeg u in
    let dri = global_dri first rest in
    let body = scans memory first rest in
    omega (
      arith,
      short,
      with_eoi_bound (start ++ sof ++ dht ++ dri ++ body),
      length-append (start ++ sof ++ dht ++ dri) body,
      length-four start sof dht dri,
      length-write_sof0 jpeg.pic_params,
      huffman_segments_bound jpeg u,
      length-scans memory data_size first rest all,
    )
