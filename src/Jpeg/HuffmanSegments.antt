-- ===== src/Jpeg/HuffmanSegments.antt =====
-- The Huffman tables that src/jpeg.c writes, as segments.
use nvidia_vaapi_driver.Prelude.{
  ℕ, ◌≤◌, inl, inr, refl, ap, sym, ◌∙◌, Option, none, some, List, [], ◌∷◌, ◌++◌, Bool, true, false,
  ◌==◌, if◌then◌else◌, Bool-cases, Option-cases, arith, append-nil,
}
use nvidia_vaapi_driver.Jpeg.Types.{HuffmanTable}
use nvidia_vaapi_driver.Jpeg.Tables.{
  dc_luminance_bits, dc_luminance_vals, dc_chrominance_bits, dc_chrominance_vals, ac_luminance_bits,
  ac_luminance_vals, ac_chrominance_bits, ac_chrominance_vals,
}
use nvidia_vaapi_driver.Jpeg.Writers.{
  array_bytes, write_dht, write_standard_huffman_tables, count_huff_values, write_counted,
  write_required, and_then, has_bit, write_table_pair, write_va_huffman_tables,
}
use nvidia_vaapi_driver.Jpeg.Bounds.{length-array_bytes, count_from_bound}
use nvidia_vaapi_driver.Jpeg.Reader.{Segment, all_written, AllHeaders-append, all_written-append}
use nvidia_vaapi_driver.Jpeg.Segments.{Writes, dht_segment, write_dht-IsHeader}

-- The four standard tables of ISO/IEC 10918-1, K.3.
abbrev pub standard_segments : List Segment
standard_segments =
    dht_segment dc_luminance_bits dc_luminance_vals 0 0
    ∷ dht_segment dc_chrominance_bits dc_chrominance_vals 0 1
    ∷ dht_segment ac_luminance_bits ac_luminance_vals 1 0
    ∷ dht_segment ac_chrominance_bits ac_chrominance_vals 1 1
    ∷ []

pub write_standard-Writes : Writes (true, write_standard_huffman_tables) standard_segments
unfolding write_standard_huffman_tables all_written write_dht dc_luminance_bits dc_luminance_vals
    dc_chrominance_bits dc_chrominance_vals ac_luminance_bits ac_luminance_vals ac_chrominance_bits
    ac_chrominance_vals
write_standard-Writes = record {
  bytes = λ e. refl;
  headers = λ e. (
    record { short = omega arith; no_scan = refl },
    (
      record { short = omega arith; no_scan = refl },
      (
        record { short = omega arith; no_scan = refl },
        (record { short = omega arith; no_scan = refl }, tt),
      ),
    ),
  );
}

-- The segment of one required table, which counts as many values as its codes say.
abbrev pub counted_segments : (ℕ → ℕ) → (ℕ → ℕ) → ℕ → ℕ → Option ℕ → List Segment
counted_segments codes values table_class id none = []
counted_segments codes values table_class id (some n) =
    dht_segment (array_bytes 16 0 codes) (array_bytes n 0 values) table_class id ∷ []

abbrev pub required_segments : Bool → (ℕ → ℕ) → (ℕ → ℕ) → ℕ → ℕ → ℕ → List Segment
required_segments required codes values max table_class id =
    if required
    then counted_segments codes values table_class id (count_huff_values codes max)
    else []

write_counted-Writes :
    (codes values : ℕ → ℕ) (table_class id n : ℕ)
    → n ≤ 162
    → Writes
        (write_counted codes values table_class id (some n))
        (counted_segments codes values table_class id (some n))
unfolding all_written
write_counted-Writes codes values table_class id n few =
    let (e, h) =
      write_dht-IsHeader (array_bytes 16 0 codes) (array_bytes n 0 values) table_class id n
        (length-array_bytes 16 0 codes) (length-array_bytes n 0 values) few in
    elim (Bool-cases (n == 0)) [
      | inl zero_codes ↦ rw zero_codes (record { bytes = λ e. cc; headers = λ e. cc })
      | inr some_codes ↦
          rw some_codes (record { bytes = λ t. e ∙ sym (append-nil _); headers = λ t. (h, tt) })
    ]

write_required-Writes :
    (required valid : Bool) (codes values : ℕ → ℕ) (max table_class id : ℕ)
    → max ≤ 162
    → Writes
        (write_required required valid codes values max table_class id)
        (required_segments required codes values max table_class id)
unfolding write_required all_written
write_required-Writes false valid codes values max c id few = record {
  bytes = λ e. refl;
  headers = λ e. tt;
}
write_required-Writes true false codes values max c id few = record {
  bytes = λ e. cc;
  headers = λ e. cc;
}
write_required-Writes true true codes values max c id few =
    elim (Option-cases (count_huff_values codes max)) [
      | inl e ↦ rw e (record { bytes = λ e. cc; headers = λ e. cc })
      | inr (n, e) ↦ rw e (
          write_counted-Writes codes values c id n
            (omega (arith, count_from_bound 16 0 codes max 0 n (omega arith) e, few)))
    ]

and_then-Writes :
    (r q : Bool × List ℕ) (xs ys : List Segment)
    → Writes r xs
    → Writes q ys
    → Writes (and_then r q) (xs ++ ys)
and_then-Writes (false, a) q xs ys v w = record { bytes = λ e. cc; headers = λ e. cc }
and_then-Writes (true, a) (d, b) xs ys v w = record {
  bytes = λ e.
      ap (λ l. l ++ b) (v.bytes refl)
      ∙ ap (λ l. all_written xs ++ l) (w.bytes e)
      ∙ sym (all_written-append xs ys);
  headers = λ e. AllHeaders-append xs ys (v.headers refl) (w.headers e);
}

-- The tables of libva that the scans need: the two of table 0, then the two of table 1.
abbrev pub table_pair_segments : (ℕ → HuffmanTable) → ℕ → ℕ → ℕ → List Segment
table_pair_segments huffman required_dc required_ac table =
    let h = huffman table in
    required_segments (has_bit required_dc table) h.num_dc_codes h.dc_values 12 0 table
    ++ required_segments (has_bit required_ac table) h.num_ac_codes h.ac_values 162 1 table

abbrev pub va_huffman_segments : (ℕ → HuffmanTable) → ℕ → ℕ → List Segment
va_huffman_segments huffman required_dc required_ac =
    table_pair_segments huffman required_dc required_ac 0
    ++ table_pair_segments huffman required_dc required_ac 1

write_table_pair-Writes :
    (huffman : ℕ → HuffmanTable) (required_dc required_ac valid_dc valid_ac table : ℕ)
    → Writes
        (write_table_pair huffman required_dc required_ac valid_dc valid_ac table)
        (table_pair_segments huffman required_dc required_ac table)
unfolding write_table_pair
write_table_pair-Writes huffman required_dc required_ac valid_dc valid_ac table =
    let h = huffman table in
    let dc =
      write_required-Writes (has_bit required_dc table) (has_bit valid_dc table) h.num_dc_codes
        h.dc_values 12 0 table (omega arith) in
    let ac =
      write_required-Writes (has_bit required_ac table) (has_bit valid_ac table) h.num_ac_codes
        h.ac_values 162 1 table (omega arith) in
    and_then-Writes _ _ _ _ dc ac

pub write_va_huffman_tables-Writes :
    (huffman : ℕ → HuffmanTable) (required_dc required_ac valid_dc valid_ac : ℕ)
    → Writes
        (write_va_huffman_tables huffman required_dc required_ac valid_dc valid_ac)
        (va_huffman_segments huffman required_dc required_ac)
unfolding write_va_huffman_tables
write_va_huffman_tables-Writes huffman required_dc required_ac valid_dc valid_ac =
    and_then-Writes _ _ _ _
      (write_table_pair-Writes huffman required_dc required_ac valid_dc valid_ac 0)
      (write_table_pair-Writes huffman required_dc required_ac valid_dc valid_ac 1)
