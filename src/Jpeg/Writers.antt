-- ===== src/Jpeg/Writers.antt =====
-- The writers of src/jpeg.c: each gives the bytes that it puts at its pointer. Where one can fail
-- the bytes are those put before.
use nvidia_vaapi_driver.Prelude.{
  ℕ, zero, suc, ◌+◌, ◌*◌, ◌/◌, ◌%◌, ◌^◌, Option, none, some, List, [], ◌∷◌, ◌++◌, Bool, true, false,
  ◌||◌, not, ltb, leb, ◌==◌, if◌then◌else◌, add32,
}
use Prim.Native.Nat.{bit_and, bit_or}
use nvidia_vaapi_driver.Jpeg.Types.{JpegPicParams, JpegSlice, HuffmanTable}
use nvidia_vaapi_driver.Jpeg.Tables.{
  dc_luminance_bits, dc_luminance_vals, dc_chrominance_bits, dc_chrominance_vals, ac_luminance_bits,
  ac_luminance_vals, ac_chrominance_bits, ac_chrominance_vals,
}

-- write16be of a `uint16_t`
abbrev pub write16be : ℕ → List ℕ
write16be value = (value / 256 % 256) ∷ (value % 256) ∷ []

-- `n` bytes of an array from index `i` on.
unfoldable pub array_bytes : ℕ → ℕ → (ℕ → ℕ) → List ℕ
array_bytes zero i f = []
array_bytes (suc n) i f = f i ∷ array_bytes n (i + 1) f

-- The loop of componentInFrame, with the rounds left.
unfoldable pub component_in_frame : ℕ → ℕ → JpegPicParams → ℕ → Bool
component_in_frame zero i pic id = false
component_in_frame (suc rounds) i pic id =
    (pic.components i).component_id == id || component_in_frame rounds (i + 1) pic id

-- The loop of getUsedQuantTablesMask; `none` is a selector out of range.
unfoldable pub used_quant_tables : ℕ → ℕ → JpegPicParams → ℕ → Option ℕ
used_quant_tables zero i pic mask = some mask
used_quant_tables (suc rounds) i pic mask =
    let id = (pic.components i).quantiser_table_selector in
    let next = used_quant_tables rounds (i + 1) pic (bit_or mask (2 ^ id % 256)) in
    if leb 4 id then none else next

abbrev pub get_used_quant_tables_mask : JpegPicParams → Option ℕ
get_used_quant_tables_mask pic = used_quant_tables pic.num_components 0 pic 0

-- The sum of `n` entries in a `uint32_t`.
unfoldable pub sum_array : ℕ → ℕ → (ℕ → ℕ) → ℕ → ℕ
sum_array zero i f sum = sum
sum_array (suc n) i f sum = sum_array n (i + 1) f (add32 sum (f i))

abbrev pub dqt_segment : ℕ → (ℕ → ℕ) → List ℕ
dqt_segment table f = 0xff ∷ 0xdb ∷ write16be 67 ++ (table % 256) ∷ array_bytes 64 0 f

-- The loop of writeDQT over the tables from `table` on.
unfoldable pub write_tables : ℕ → ℕ → (ℕ → ℕ → ℕ) → ℕ → Bool × List ℕ
write_tables zero table tables used = (true, [])
write_tables (suc rounds) table tables used =
    let (done, rest) = write_tables rounds (table + 1) tables used in
    if bit_and used (2 ^ table % 256) == 0
    then (done, rest)
    else if sum_array 64 0 (tables table) 0 == 0
    then (false, [])
    else (done, dqt_segment table (tables table) ++ rest)

abbrev pub write_dqt_used : (ℕ → ℕ → ℕ) → ℕ → Option ℕ → Bool × List ℕ
write_dqt_used tables valid none = (false, [])
write_dqt_used tables valid (some used) =
    if not (bit_and valid used == used) then (false, []) else write_tables 4 0 tables used

unfoldable pub write_dqt : (ℕ → ℕ → ℕ) → JpegPicParams → ℕ → Bool × List ℕ
write_dqt tables pic valid = write_dqt_used tables valid (get_used_quant_tables_mask pic)

abbrev pub write_dri : ℕ → List ℕ
write_dri interval = 0xff ∷ 0xdd ∷ write16be 4 ++ write16be interval

unfoldable pub frame_components : ℕ → ℕ → JpegPicParams → List ℕ
frame_components zero i pic = []
frame_components (suc rounds) i pic =
    let c = pic.components i in
    c.component_id
    ∷ (bit_or (c.h_sampling_factor * 16) c.v_sampling_factor % 256)
    ∷ c.quantiser_table_selector
    ∷ frame_components rounds (i + 1) pic

abbrev pub sof0_payload : JpegPicParams → List ℕ
sof0_payload pic =
    8 ∷ write16be pic.picture_height
    ++ write16be pic.picture_width
    ++ pic.num_components ∷ frame_components pic.num_components 0 pic

unfoldable pub write_sof0 : JpegPicParams → List ℕ
write_sof0 pic =
    0xff ∷ 0xc0 ∷ write16be ((2 + 1 + 2 + 2 + 1 + pic.num_components * 3) % 2 ^ 16)
    ++ sof0_payload pic

-- `bits` are the 16 bytes at the pointer, `vals` the `n` bytes.
unfoldable pub write_dht : List ℕ → List ℕ → ℕ → ℕ → ℕ → List ℕ
write_dht bits vals table_class id n =
    0xff ∷ 0xc4 ∷ write16be ((2 + 1 + 16 + n) % 2 ^ 16)
    ++ (bit_or (table_class * 16) id % 256) ∷ bits
    ++ vals

unfoldable pub write_standard_huffman_tables : List ℕ
write_standard_huffman_tables =
    write_dht dc_luminance_bits dc_luminance_vals 0 0 12
    ++ write_dht dc_chrominance_bits dc_chrominance_vals 0 1 12
    ++ write_dht ac_luminance_bits ac_luminance_vals 1 0 162
    ++ write_dht ac_chrominance_bits ac_chrominance_vals 1 1 162

-- The loop of countHuffValues; `none` is false.
unfoldable pub count_from : ℕ → ℕ → (ℕ → ℕ) → ℕ → ℕ → Option ℕ
count_from zero i codes max sum = some sum
count_from (suc n) i codes max sum =
    let total = add32 sum (codes i) in
    let next = count_from n (i + 1) codes max total in if ltb max total then none else next

abbrev pub count_huff_values : (ℕ → ℕ) → ℕ → Option ℕ
count_huff_values codes max = count_from 16 0 codes max 0

-- The lines for one table that is required, given its count.
abbrev pub write_counted : (ℕ → ℕ) → (ℕ → ℕ) → ℕ → ℕ → Option ℕ → Bool × List ℕ
write_counted codes values table_class id none = (false, [])
write_counted codes values table_class id (some n) =
    if n == 0
    then (false, [])
    else (true, write_dht (array_bytes 16 0 codes) (array_bytes n 0 values) table_class id n)

unfoldable pub write_required : Bool → Bool → (ℕ → ℕ) → (ℕ → ℕ) → ℕ → ℕ → ℕ → Bool × List ℕ
write_required required valid codes values max table_class id =
    if not required
    then (true, [])
    else if not valid
    then (false, [])
    else write_counted codes values table_class id (count_huff_values codes max)

-- One writer after another, up to the first that fails.
abbrev pub and_then : Bool × List ℕ → Bool × List ℕ → Bool × List ℕ
and_then (false, xs) r = (false, xs)
and_then (true, xs) (done, ys) = (done, xs ++ ys)

abbrev pub has_bit : ℕ → ℕ → Bool
has_bit mask table = not (bit_and mask (2 ^ table % 256) == 0)

module _ (huffman : ℕ → HuffmanTable) (required_dc required_ac valid_dc valid_ac : ℕ) where
  unfoldable pub write_table_pair : ℕ → Bool × List ℕ
  write_table_pair table =
      let h = huffman table in
      and_then
        (write_required (has_bit required_dc table) (has_bit valid_dc table) h.num_dc_codes
          h.dc_values 12 0 table)
        (write_required (has_bit required_ac table) (has_bit valid_ac table) h.num_ac_codes
          h.ac_values 162 1 table)

  unfoldable pub write_va_huffman_tables : Bool × List ℕ
  write_va_huffman_tables = and_then (write_table_pair 0) (write_table_pair 1)

unfoldable pub scan_components : ℕ → ℕ → JpegSlice → List ℕ
scan_components zero i slice = []
scan_components (suc rounds) i slice =
    let c = slice.components i in
    c.component_selector
    ∷ (bit_or (c.dc_table_selector * 16) c.ac_table_selector % 256)
    ∷ scan_components rounds (i + 1) slice

abbrev pub sos_payload : JpegSlice → List ℕ
sos_payload slice =
    slice.num_components ∷ scan_components slice.num_components 0 slice ++ 0 ∷ 63 ∷ 0 ∷ []

unfoldable pub write_sos : JpegSlice → List ℕ
write_sos slice =
    0xff ∷ 0xda ∷ write16be ((2 + 1 + slice.num_components * 2 + 3) % 2 ^ 16) ++ sos_payload slice
