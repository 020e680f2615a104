-- ===== src/Jpeg/Bounds.antt =====
-- The lengths of the segments and of the frame: the reservation is large enough.
use nvidia_vaapi_driver.Prelude.{
  ℕ, zero, suc, ◌+◌, ◌*◌, ◌%◌, ◌^◌, ◌≤◌, ◌≡◌, inl, inr, refl, ap, none, some, List, Bool, true,
  false, not, ltb, ◌==◌, Bool-cases, Option-cases, arith, length, length-append,
}
use Prim.Native.Nat.{bit_and}
use nvidia_vaapi_driver.Jpeg.Types.{JpegPicParams, HuffmanTable}
use nvidia_vaapi_driver.Jpeg.Tables.{
  dc_luminance_bits, dc_luminance_vals, dc_chrominance_bits, dc_chrominance_vals, ac_luminance_bits,
  ac_luminance_vals, ac_chrominance_bits, ac_chrominance_vals,
}
use nvidia_vaapi_driver.Jpeg.Writers.{
  array_bytes, write_tables, write_dqt, get_used_quant_tables_mask, dqt_segment, frame_components,
  write_sof0, write_dht, write_standard_huffman_tables, count_from, count_huff_values,
  write_required, and_then, has_bit, write_table_pair, write_va_huffman_tables,
}

pub length-array_bytes : (n i : ℕ) (f : ℕ → ℕ) → length (array_bytes n i f) ≡ n
unfolding array_bytes
length-array_bytes zero i f = refl
length-array_bytes (suc n) i f = ap suc (length-array_bytes n (i + 1) f)

length-dqt_segment : (table : ℕ) (f : ℕ → ℕ) → length (dqt_segment table f) ≡ 69
length-dqt_segment table f = omega (arith, length-array_bytes 64 0 f)

write_tables_bound :
    (rounds table : ℕ) (tables : ℕ → ℕ → ℕ) (used : ℕ)
    → length (write_tables rounds table tables used).1 ≤ rounds * 69
unfolding write_tables
write_tables_bound zero table tables used = omega arith
write_tables_bound (suc rounds) table tables used =
    let rest = write_tables rounds (table + 1) tables used in
    let seg = dqt_segment table (tables table) in
    ground (
      arith,
      write_tables_bound rounds (table + 1) tables used,
      length-append seg rest.1,
      length-dqt_segment table (tables table),
    )

-- At most four tables, whether it succeeds or not.
pub write_dqt_bound :
    (tables : ℕ → ℕ → ℕ) (pic : JpegPicParams) (valid : ℕ)
    → length (write_dqt tables pic valid).1 ≤ 276
unfolding write_dqt
write_dqt_bound tables pic valid = elim (Option-cases (get_used_quant_tables_mask pic)) [
  | inl e ↦ rw e (omega arith)
  | inr (used, e) ↦ elim (Bool-cases (not (bit_and valid used == used))) [
    | inl h ↦ rw (e, h) (omega arith)
    | inr h ↦ rw (e, h) (omega (arith, write_tables_bound 4 0 tables used))
  ]
]

pub length-frame_components :
    (rounds i : ℕ) (pic : JpegPicParams) → length (frame_components rounds i pic) ≡ rounds * 3
unfolding frame_components
length-frame_components zero i pic = omega arith
length-frame_components (suc rounds) i pic =
    omega (arith, length-frame_components rounds (i + 1) pic)

pub length-write_sof0 :
    (pic : JpegPicParams) → length (write_sof0 pic) ≡ 10 + pic.num_components * 3
unfolding write_sof0
length-write_sof0 pic = omega (arith, length-frame_components pic.num_components 0 pic)

length-write_dht :
    (bits vals : List ℕ) (c id n : ℕ)
    → length (write_dht bits vals c id n) ≡ 5 + length bits + length vals
unfolding write_dht
length-write_dht bits vals c id n = omega (arith, length-append bits vals)

pub length-standard_tables : length write_standard_huffman_tables ≡ 432
unfolding write_standard_huffman_tables write_dht dc_luminance_bits dc_luminance_vals
    dc_chrominance_bits dc_chrominance_vals ac_luminance_bits ac_luminance_vals ac_chrominance_bits
    ac_chrominance_vals
length-standard_tables = refl

pub count_from_bound :
    (n i : ℕ) (codes : ℕ → ℕ) (max sum k : ℕ)
    → sum ≤ max
    → count_from n i codes max sum ≡ some k
    → k ≤ max
unfolding count_from
count_from_bound zero i codes max sum k b h = ground arith
count_from_bound (suc n) i codes max sum k b h =
    elim (Bool-cases (ltb max ((sum + codes i) % 2 ^ 32))) [
      | inl over ↦ let h' : none ≡ some k = rw over at h in cc
      | inr fits ↦
          count_from_bound n (i + 1) codes max ((sum + codes i) % 2 ^ 32) k (ground arith)
            (rw fits at h)
    ]

write_required_bound :
    (required valid : Bool) (codes values : ℕ → ℕ) (max c id : ℕ)
    → length (write_required required valid codes values max c id).1 ≤ 21 + max
unfolding write_required
write_required_bound false valid codes values max c id = omega arith
write_required_bound true false codes values max c id = omega arith
write_required_bound true true codes values max c id =
    elim (Option-cases (count_huff_values codes max)) [
      | inl e ↦ rw e (omega arith)
      | inr (n, e) ↦
          let b = count_from_bound 16 0 codes max 0 n (omega arith) e in
          rw e (
            ground (
              arith,
              length-write_dht (array_bytes 16 0 codes) (array_bytes n 0 values) c id n,
              length-array_bytes 16 0 codes,
              length-array_bytes n 0 values,
            ))
    ]

and_then_bound :
    (r s : Bool × List ℕ) (m n : ℕ)
    → length r.1 ≤ m
    → length s.1 ≤ n
    → length (and_then r s).1 ≤ m + n
and_then_bound (false, xs) (done, ys) m n a b = omega (arith, a)
and_then_bound (true, xs) (done, ys) m n a b = omega (arith, a, b, length-append xs ys)

pub va_tables_bound :
    (huffman : ℕ → HuffmanTable) (rd ra vd va : ℕ)
    → length (write_va_huffman_tables huffman rd ra vd va).1 ≤ 432
unfolding write_va_huffman_tables write_table_pair
va_tables_bound huffman rd ra vd va =
    let pair : (t : ℕ) → length (write_table_pair huffman rd ra vd va t).1 ≤ 216 = λ t.
      and_then_bound _ _ 33 183
        (write_required_bound (has_bit rd t) (has_bit vd t) (huffman t).num_dc_codes
          (huffman t).dc_values 12 0 t)
        (write_required_bound (has_bit ra t) (has_bit va t) (huffman t).num_ac_codes
          (huffman t).ac_values 162 1 t) in
    and_then_bound _ _ 216 216 (pair 0) (pair 1)
