-- ===== src/Jpeg.antt =====
-- src/jpeg.c: a whole JPEG image is put together from what libva hands over in parts, behind the
-- bitstream of the context. The slice data are the memory at the buffer's pointer.
pub mod Types
pub mod Tables
pub mod Writers
pub mod Bounds
pub mod Frame
pub mod Output
pub mod Reconstruct
pub mod Reader
pub mod Segments
pub mod HuffmanSegments
pub mod RoundTrip
pub mod Decode
pub mod Headers
pub mod LaterScans
pub mod Image
pub mod Handlers
pub mod SliceData
pub mod Picture
mod Tests
use nvidia_vaapi_driver.Prelude.{
  ℕ, zero, suc, ◌+◌, ◌-◌, ◌*◌, ◌/◌, ◌%◌, ◌^◌, Option, none, some, List, [], ◌∷◌, ◌++◌, Bool, true,
  false, ◌||◌, ◌&&◌, not, ltb, leb, ◌==◌, if◌then◌else◌, length, take, drop, size_max, uint32_max,
  add64,
}
use Prim.Native.Nat.{bit_and, bit_or}
use nvidia_vaapi_driver.AppendableBuffer.{
  AppendableBuffer, Memalign, bytes, reserve_additional_buffer, append_buffer,
}
use nvidia_vaapi_driver.Codec.Utils.{VaBuffer, Context, PicParams, reject}
use nvidia_vaapi_driver.Codec.Slices.{le32, put_offsets, put_bitstream, committed}
use Types.{JpegPicParams, ScanComponent, JpegSlice, HuffmanTable, JpegContext}
use Tables.{jfif_header}
use Writers.{
  component_in_frame, get_used_quant_tables_mask, write_dqt, write_dri, write_sof0,
  write_standard_huffman_tables, write_va_huffman_tables, write_sos, array_bytes,
}

abbrev pub max_components : ℕ
max_components = 4

-- The masks of the Huffman tables that the scans need.
pub record Usage : Type 0 where
  pub dc : ℕ
  pub ac : ℕ

-- The loop of validateSliceAndCollectHuffmanUsage; `none` is false.
pub collect_usage : ℕ → ℕ → JpegPicParams → JpegSlice → Usage → Option Usage
collect_usage zero i pic slice u = some u
collect_usage (suc rounds) i pic slice u =
    let c = slice.components i in
    let next = collect_usage rounds (i + 1) pic slice (record {
      dc = bit_or u.dc (2 ^ c.dc_table_selector % 256);
      ac = bit_or u.ac (2 ^ c.ac_table_selector % 256);
    }) in
    if not (component_in_frame pic.num_components 0 pic c.component_selector)
    then none
    else if ltb 1 c.dc_table_selector || ltb 1 c.ac_table_selector
    then none
    else next

pub validate_slice : JpegPicParams → JpegSlice → Usage → Option Usage
validate_slice pic slice u =
    if slice.num_components == 0 || ltb max_components slice.num_components
    then none
    else collect_usage slice.num_components 0 pic slice u

-- What the loop over the slices collects: `totalEcsSize` and the masks.
pub record Collected : Type 0 where
  pub total : ℕ
  pub usage : Usage

abbrev pub out_of_range : ℕ → JpegSlice → Bool
out_of_range data_size slice =
    ltb data_size slice.slice_data_offset
    || ltb (data_size - slice.slice_data_offset) slice.slice_data_size

-- The loop over the slices that checks them; `data_flag_all` is VA_SLICE_DATA_FLAG_ALL.
pub check_slices : ℕ → JpegPicParams → ℕ → List JpegSlice → Collected → Option Collected
check_slices data_flag_all pic data_size [] t = some t
check_slices data_flag_all pic data_size (s ∷ rest) t =
    if not (s.slice_data_flag == data_flag_all) then none else elim (validate_slice pic s t.usage) [
      | none ↦ none
      | some u ↦
          if out_of_range data_size s || ltb (size_max - t.total) s.slice_data_size
          then none
          else check_slices data_flag_all pic data_size rest
              (record { total = add64 t.total s.slice_data_size; usage = u })
    ]

-- Whether the components of two scans agree, from `i` on.
pub same_components : ℕ → ℕ → JpegSlice → JpegSlice → Bool
same_components zero i s t = true
same_components (suc rounds) i s t =
    let a = s.components i in
    let b = t.components i in
    let next = same_components rounds (i + 1) s t in
    if not (a.component_selector == b.component_selector)
      || not (a.dc_table_selector == b.dc_table_selector)
      || not (a.ac_table_selector == b.ac_table_selector)
    then false
    else next

abbrev pub same_header : JpegSlice → JpegSlice → Bool
same_header first s =
    s.num_components == first.num_components && same_components s.num_components 0 s first

-- `allSameSOSHeader` and `allSameRestartInterval`, over the slices behind the first.
pub all_same_header : JpegSlice → List JpegSlice → Bool
all_same_header first [] = true
all_same_header first (s ∷ rest) = same_header first s && all_same_header first rest

pub all_same_interval : JpegSlice → List JpegSlice → Bool
all_same_interval first [] = true
all_same_interval first (s ∷ rest) =
    s.restart_interval == first.restart_interval && all_same_interval first rest

-- The bound on the size of the frame, a `uint64_t`; `n` is the number of slices. It is never above
-- SIZE_MAX, so that test is left out.
abbrev pub max_frame_size : ℕ → ℕ → ℕ → ℕ
max_frame_size components n total =
    (20
      + 4 * (2 + 2 + 1 + 64)
      + (2 + 2 + 1 + 2 + 2 + 1 + components * 3)
      + 2 * ((2 + 2 + 1 + 16 + 12) + (2 + 2 + 1 + 16 + 162))
      + n * (2 + 2 + 2)
      + n * (2 + 2 + 1 + 4 * 2 + 3)
      + total
      + 2)
    % 2 ^ 64

-- The bytes of a slice in the slice data.
abbrev pub slice_data : List ℕ → JpegSlice → List ℕ
slice_data memory s = take s.slice_data_size (drop s.slice_data_offset memory)

-- The loop that copies the slices behind one header.
pub copy_slices : List ℕ → List JpegSlice → List ℕ
copy_slices memory [] = []
copy_slices memory (s ∷ rest) = slice_data memory s ++ copy_slices memory rest

-- The loop that writes a header before each slice.
pub write_scans : Bool → List ℕ → List JpegSlice → List ℕ
write_scans same_interval memory [] = []
write_scans same_interval memory (s ∷ rest) =
    (if not same_interval && not (s.restart_interval == 0)
      then write_dri s.restart_interval
      else [])
    ++ write_sos s
    ++ slice_data memory s
    ++ write_scans same_interval memory rest

-- The test whether the frame ends with the marker of the end of the image.
pub ends_with_eoi : List ℕ → Bool
ends_with_eoi [] = false
ends_with_eoi (a ∷ []) = false
ends_with_eoi (a ∷ b ∷ []) = a == 0xff && b == 0xd9
ends_with_eoi (a ∷ b ∷ c ∷ rest) = ends_with_eoi (b ∷ c ∷ rest)

abbrev pub with_eoi : List ℕ → List ℕ
with_eoi frame = if ends_with_eoi frame then frame else frame ++ 0xff ∷ 0xd9 ∷ []

-- `useVAHuffman`
abbrev pub uses_va_huffman : JpegContext → Usage → Bool
uses_va_huffman jpeg u =
    jpeg.has_huffman_table
    && (bit_and jpeg.valid_huffman_dc_mask u.dc == u.dc)
    && (bit_and jpeg.valid_huffman_ac_mask u.ac == u.ac)

abbrev pub va_tables : JpegContext → Usage → Bool × List ℕ
va_tables jpeg u =
    write_va_huffman_tables jpeg.huffman_tables u.dc u.ac jpeg.valid_huffman_dc_mask
      jpeg.valid_huffman_ac_mask

-- The Huffman tables of libva, or the standard ones written over what was tried.
pub huffman_segments : JpegContext → Usage → List ℕ
huffman_segments jpeg u =
    if uses_va_huffman jpeg u && (va_tables jpeg u).0
    then (va_tables jpeg u).1
    else write_standard_huffman_tables

-- The restart interval of all the slices.
pub global_dri : JpegSlice → List JpegSlice → List ℕ
global_dri first rest =
    if all_same_interval first rest && not (first.restart_interval == 0)
    then write_dri first.restart_interval
    else []

pub scans : List ℕ → JpegSlice → List JpegSlice → List ℕ
scans memory first rest =
    if all_same_header first rest
    then write_sos first ++ copy_slices memory (first ∷ rest)
    else write_scans (all_same_interval first rest) memory (first ∷ rest)

-- The frame behind its quantisation tables, given the bytes up to them.
pub frame_from : List ℕ → JpegContext → Usage → List ℕ → JpegSlice → List JpegSlice → List ℕ
frame_from start jpeg u memory first rest = with_eoi (
    start
    ++ write_sof0 jpeg.pic_params
    ++ huffman_segments jpeg u
    ++ global_dri first rest
    ++ scans memory first rest)

-- Bytes put behind those in use; they have to fit into the block.
abbrev pub write_behind : AppendableBuffer → List ℕ → AppendableBuffer
write_behind b new = record b {
  buf = some (take b.size (bytes b.buf) ++ new ++ drop (b.size + length new) (bytes b.buf));
}

-- The last lines: whether the frame and the bitstream are of 32 bits. `outSize` comes last.
pub finish_frame : AppendableBuffer → List ℕ → Bool × AppendableBuffer × ℕ
finish_frame b frame =
    let n = length frame in
    let b' = write_behind b frame in
    if ltb uint32_max n
    then (false, b', 0)
    else if ltb (uint32_max - n) b.size
    then (false, b', n)
    else (true, record b' { size = b.size + n }, n)

-- What is written where writeVAHuffmanTables fails: the frame overwrites it.
abbrev pub tried_tables : AppendableBuffer → JpegContext → Usage → List ℕ → AppendableBuffer
tried_tables b jpeg u start =
    if uses_va_huffman jpeg u then write_behind b (start ++ (va_tables jpeg u).1) else b

-- From the writing of the quantisation tables on.
pub write_frame :
    AppendableBuffer
    → JpegContext
    → Usage
    → List ℕ
    → JpegSlice
    → List JpegSlice
    → Bool × List ℕ
    → Bool × AppendableBuffer × ℕ
write_frame b jpeg u memory first rest (false, dqt) =
    (false, write_behind b (jfif_header ++ dqt), 0)
write_frame b jpeg u memory first rest (true, dqt) =
    let start = jfif_header ++ dqt in
    finish_frame (tried_tables b jpeg u (start ++ write_sof0 jpeg.pic_params))
      (frame_from start jpeg u memory first rest)

-- The checks before the loop over the slices.
abbrev pub is_refused : JpegContext → Bool
is_refused jpeg =
    let pic = jpeg.pic_params in
    let valid = jpeg.valid_quant_tables_mask in
    not jpeg.has_pic_params
    || not jpeg.has_iq_matrix
    || pic.picture_width == 0
    || pic.picture_height == 0
    || pic.num_components == 0
    || ltb max_components pic.num_components
    || elim (get_used_quant_tables_mask pic) [
      | none ↦ true
      | some used ↦ not (bit_and valid used == used)
    ]

module _ (memalign : Memalign) (data_flag_all : ℕ) where
  -- From the reservation on.
  pub reserve_frame :
      JpegContext
      → JpegSlice
      → List JpegSlice
      → List ℕ
      → AppendableBuffer
      → Option Collected
      → Bool × AppendableBuffer × ℕ
  reserve_frame jpeg first rest memory output none = (false, output, 0)
  reserve_frame jpeg first rest memory output (some t) =
      let n = max_frame_size jpeg.pic_params.num_components (length (first ∷ rest)) t.total in
      let (done, b) = reserve_additional_buffer memalign output n in
      if not done
      then (false, b, 0)
      else write_frame b jpeg t.usage memory first rest
          (write_dqt jpeg.quant_tables jpeg.pic_params jpeg.valid_quant_tables_mask)

  -- reconstructJPEG: whether it succeeds, the output and `outSize`.
  pub reconstruct_jpeg :
      JpegContext → List JpegSlice → List ℕ → ℕ → AppendableBuffer → Bool × AppendableBuffer × ℕ
  reconstruct_jpeg jpeg [] memory data_size output = (false, output, 0)
  reconstruct_jpeg jpeg (first ∷ rest) memory data_size output =
      if is_refused jpeg
      then (false, output, 0)
      else reserve_frame jpeg first rest memory output (
          check_slices data_flag_all jpeg.pic_params data_size (first ∷ rest)
            (record { total = 0; usage = record { dc = 0; ac = 0 } }))
