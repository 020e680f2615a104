-- ===== src/Jpeg/Segments.antt =====
-- The segments that the writers of src/jpeg.c write, where they succeed.
use nvidia_vaapi_driver.Prelude.{
  ℕ, zero, suc, ◌+◌, ◌*◌, ◌%◌, ◌^◌, ◌≤◌, ◌<◌, ◌≡◌, inl, inr, refl, ap, List, [], ◌∷◌, ◌++◌, Bool,
  true, ◌==◌, if◌then◌else◌, Bool-cases, arith, length, length-append,
}
use Prim.Native.Nat.{bit_and, bit_or}
use nvidia_vaapi_driver.Jpeg.Types.{JpegPicParams, JpegSlice}
use nvidia_vaapi_driver.Jpeg.Writers.{
  write16be, array_bytes, write_tables, dqt_segment, scan_components, sof0_payload, write_sof0,
  write_dht, has_bit, sos_payload, write_sos, sum_array,
}
use nvidia_vaapi_driver.Jpeg.Bounds.{length-array_bytes, length-frame_components}
use nvidia_vaapi_driver.Jpeg.Frame.{length-scan_components}
use nvidia_vaapi_driver.Jpeg.Reader.{Segment, written, all_written, IsHeader, AllHeaders}

-- The segments that are asked for: the application marker,
abbrev pub app0 : Segment
app0 = record {
  marker = 0xe0;
  payload =
      0x4a ∷ 0x46 ∷ 0x49 ∷ 0x46 ∷ 0x00 ∷ 0x01 ∷ 0x01 ∷ 0x00 ∷ 0x00 ∷ 0x01 ∷ 0x00 ∷ 0x01 ∷ 0x00
      ∷ 0x00 ∷ [];
}

abbrev pub quant_segment : ℕ → (ℕ → ℕ) → Segment
quant_segment table f = record { marker = 0xdb; payload = table % 256 ∷ array_bytes 64 0 f }

-- each quantisation table in use,
unfoldable pub quant_segments : ℕ → ℕ → (ℕ → ℕ → ℕ) → ℕ → List Segment
quant_segments zero table tables used = []
quant_segments (suc rounds) table tables used =
    if has_bit used table
    then quant_segment table (tables table) ∷ quant_segments rounds (table + 1) tables used
    else quant_segments rounds (table + 1) tables used

-- A writer that, where it succeeds, writes these segments, all of them headers.
pub record Writes (r : Bool × List ℕ) (segs : List Segment) : Type 0 where
  pub bytes : r.0 ≡ true → r.1 ≡ all_written segs
  pub headers : r.0 ≡ true → AllHeaders segs

pub write_tables-Writes :
    (rounds table : ℕ) (tables : ℕ → ℕ → ℕ) (used : ℕ)
    → Writes (write_tables rounds table tables used) (quant_segments rounds table tables used)
unfolding write_tables quant_segments all_written
write_tables-Writes zero table tables used = record { bytes = λ e. refl; headers = λ e. tt }
write_tables-Writes (suc rounds) table tables used =
    let ih = write_tables-Writes rounds (table + 1) tables used in
    elim (Bool-cases (bit_and used (2 ^ table % 256) == 0)) [
      | inl unused ↦ rw unused ih
      | inr in_use ↦ elim (Bool-cases (sum_array 64 0 (tables table) 0 == 0)) [
        | inl empty ↦ rw (in_use, empty) (record { bytes = λ e. cc; headers = λ e. cc })
        | inr filled ↦
            rw (in_use, filled)
              (record {
                bytes = λ e.
                    rw (length-array_bytes 64 0 (tables table))
                      (ap (λ l. dqt_segment table (tables table) ++ l) (ih.bytes e));
                headers = λ e. (
                  record {
                    short = omega (arith, length-array_bytes 64 0 (tables table));
                    no_scan = refl;
                  },
                  ih.headers e,
                );
              })
      ]
    ]

abbrev pub sof0_segment : JpegPicParams → Segment
sof0_segment pic = record { marker = 0xc0; payload = sof0_payload pic }

pub write_sof0-IsHeader :
    (pic : JpegPicParams)
    → pic.num_components ≤ 4
    → (write_sof0 pic ≡ written (sof0_segment pic)) × IsHeader (sof0_segment pic)
unfolding write_sof0
write_sof0-IsHeader pic few =
    let n = length-frame_components pic.num_components 0 pic in
    let e : (2 + 1 + 2 + 2 + 1 + pic.num_components * 3) % 2 ^ 16 ≡ length (sof0_payload pic) + 2 =
      omega (arith, n) in
    (
      ap (λ k. 0xff ∷ 0xc0 ∷ write16be k ++ sof0_payload pic) e,
      record { short = omega (arith, n); no_scan = refl },
    )

abbrev pub dht_segment : List ℕ → List ℕ → ℕ → ℕ → Segment
dht_segment bits vals table_class id = record {
  marker = 0xc4;
  payload = (bit_or (table_class * 16) id % 256) ∷ bits ++ vals;
}

pub write_dht-IsHeader :
    (bits vals : List ℕ) (table_class id n : ℕ)
    → length bits ≡ 16
    → length vals ≡ n
    → n ≤ 162
    → (write_dht bits vals table_class id n ≡ written (dht_segment bits vals table_class id))
      × IsHeader (dht_segment bits vals table_class id)
unfolding write_dht
write_dht-IsHeader bits vals table_class id n b v few =
    let s = dht_segment bits vals table_class id in
    let e : (2 + 1 + 16 + n) % 2 ^ 16 ≡ length s.payload + 2 =
      omega (arith, length-append bits vals, b, v) in
    (
      ap (λ k. 0xff ∷ 0xc4 ∷ write16be k ++ s.payload) e,
      record { short = omega (arith, length-append bits vals, b, v); no_scan = refl },
    )

abbrev pub dri_segment : ℕ → Segment
dri_segment interval = record { marker = 0xdd; payload = write16be interval }

abbrev pub sos_segment : JpegSlice → Segment
sos_segment slice = record { marker = 0xda; payload = sos_payload slice }

pub write_sos-IsScan :
    (slice : JpegSlice)
    → slice.num_components ≤ 4
    → (write_sos slice ≡ written (sos_segment slice)) × (length (sos_payload slice) + 2 < 65536)
unfolding write_sos
write_sos-IsScan slice few =
    let n = length-scan_components slice.num_components 0 slice in
    let m = length-append (scan_components slice.num_components 0 slice) (0 ∷ 63 ∷ 0 ∷ []) in
    let e : (2 + 1 + slice.num_components * 2 + 3) % 2 ^ 16 ≡ length (sos_payload slice) + 2 =
      omega (arith, n, m) in
    (ap (λ k. 0xff ∷ 0xda ∷ write16be k ++ sos_payload slice) e, omega (arith, n, m))
