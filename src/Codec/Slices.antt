-- ===== src/Codec/Slices.antt =====
-- The slice data handlers of src/h264.c, hevc.c, mpeg2.c, mpeg4.c, vc1.c, vp8.c and vp9.c, up to the
-- reparsing of VP9's header: they copy the slices that the last slice parameters name behind the
-- bitstream and the offset of each behind the slice offsets.
pub mod Measure
pub mod Append
pub mod Whole
mod Tests
use nvidia_vaapi_driver.Prelude.{
  ℕ, ◌+◌, ◌-◌, ◌*◌, ◌/◌, ◌%◌, ◌^◌, Option, none, some, List, [], ◌∷◌, Bool, true, false, ◌||◌, not,
  ltb, leb, ◌==◌, if◌then◌else◌, length, take, drop, size_max, uint32_max, add32, add64,
}
use nvidia_vaapi_driver.AppendableBuffer.{
  AppendableBuffer, Memalign, bytes, reserve_buffer_elements, reserve_additional_buffer,
  append_buffer,
}
use nvidia_vaapi_driver.Codec.Utils.{
  VaBuffer, SliceParam, Context, PicParams, reject, data_at, validate_slice_range,
  can_append_bitstream, commit_bitstream_length, add_cuvid_slices, build_vp8_frame_header,
}

-- The context behind a pointer that is not null.
abbrev pub context_or : Context → Option Context → Context
context_or ctx none = ctx
context_or ctx (some ctx') = ctx'

abbrev pub pic_or : PicParams → Option PicParams → PicParams
pic_or pic none = pic
pic_or pic (some pic') = pic'

-- The slice parameters that the loops go over; the array has as many as its count says.
abbrev pub slices_of : Context → List SliceParam
slices_of ctx = take ctx.last_slice_params_count ctx.last_slice_params

abbrev pub fail_bitstream : Context → Context
fail_bitstream ctx = record ctx {
  bitstream_buffer = record (ctx.bitstream_buffer) { failed = true };
}

-- The first loop, with a header of `h` bytes for each slice: the bytes that are needed, `none` where
-- the handler returns. `slice_data_size + 3U` is a sum of 32 bits.
pub measure_slices : ℕ → VaBuffer → Context → List SliceParam → ℕ → Context × Option ℕ
measure_slices h buf ctx [] total = (ctx, some total)
measure_slices h buf ctx (s ∷ rest) total =
    let (valid, ctx', data') =
      validate_slice_range (some ctx) (some buf) s.slice_data_offset s.slice_data_size in
    let next = measure_slices h buf ctx rest (add64 total (add32 s.slice_data_size h)) in
    if not valid
    then (context_or ctx ctx', none)
    else if ltb (size_max - h) total || ltb (size_max - total - h) s.slice_data_size
    then (fail_bitstream ctx, none)
    else next

-- A `uint32_t` in memory.
abbrev pub le32 : ℕ → List ℕ
le32 n = n % 256 ∷ (n / 256 % 256) ∷ (n / 65536 % 256) ∷ (n / 16777216 % 256) ∷ []

abbrev pub put_offsets : Context → AppendableBuffer → Context
put_offsets ctx b = record ctx { slice_offsets = b }

abbrev pub put_bitstream : Context → AppendableBuffer → Context
put_bitstream ctx b = record ctx { bitstream_buffer = b }

-- `static const uint8_t header[] = { 0, 0, 1 }`
abbrev pub start_code : List ℕ
start_code = 0 ∷ 0 ∷ 1 ∷ []

module _ (memalign : Memalign) where
  abbrev pub append_offset : Context → Context
  append_offset ctx =
      let offset = ctx.bitstream_buffer.size % 2 ^ 32 in
      put_offsets ctx (append_buffer memalign ctx.slice_offsets (some (le32 offset)) 4).1

  abbrev pub append_bitstream : Context → Option (List ℕ) → ℕ → Context
  append_bitstream ctx src n =
      put_bitstream ctx (append_buffer memalign ctx.bitstream_buffer src n).1

  -- One round of the second loop.
  abbrev pub append_slice : List ℕ → VaBuffer → Context → SliceParam → Context
  append_slice header buf ctx s =
      append_bitstream (append_bitstream (append_offset ctx) (some header) (length header))
        (data_at buf.ptr s.slice_data_offset) s.slice_data_size

  pub append_slices : List ℕ → VaBuffer → Context → List SliceParam → Context
  append_slices header buf ctx [] = ctx
  append_slices header buf ctx (s ∷ rest) =
      append_slices header buf (append_slice header buf ctx s) rest

  abbrev pub committed : Context → PicParams → Context × PicParams
  committed ctx pic =
      let (done, ctx', pic') = commit_bitstream_length (some ctx) (some pic) in
      (context_or ctx ctx', pic_or pic pic')

  -- From the two reservations on.
  abbrev pub reserve_and_append : List ℕ → VaBuffer → Context → PicParams → ℕ → Context × PicParams
  reserve_and_append header buf ctx pic total =
      let offsets =
        reserve_buffer_elements memalign ctx.slice_offsets ctx.last_slice_params_count 4 in
      let ctx1 = put_offsets ctx offsets.1 in
      let stream = reserve_additional_buffer memalign ctx.bitstream_buffer total in
      let ctx2 = put_bitstream ctx1 stream.1 in
      if not offsets.0
      then (ctx1, pic)
      else if not stream.0
      then (ctx2, pic)
      else committed (append_slices header buf ctx2 (slices_of ctx)) pic

  abbrev pub checked_append :
      List ℕ → VaBuffer → PicParams → Context × Option ℕ → Context × PicParams
  checked_append header buf pic (ctx, none) = (ctx, pic)
  checked_append header buf pic (ctx, some total) =
      let (fits, ctx') = can_append_bitstream (some ctx) total in
      if fits then reserve_and_append header buf ctx pic total else (context_or ctx ctx', pic)

  -- The handlers with the given header before each slice; without one there is no append of it.
  pub copy_slice_data : List ℕ → Context → VaBuffer → PicParams → Context × PicParams
  copy_slice_data header ctx buf pic =
      checked_append header buf pic (measure_slices (length header) buf ctx (slices_of ctx) 0)

  abbrev pub copy_h264_slice_data : Context → VaBuffer → PicParams → Context × PicParams
  copy_h264_slice_data = copy_slice_data start_code

  abbrev pub copy_hevc_slice_data : Context → VaBuffer → PicParams → Context × PicParams
  copy_hevc_slice_data = copy_slice_data start_code

  abbrev pub copy_mpeg2_slice_data : Context → VaBuffer → PicParams → Context × PicParams
  copy_mpeg2_slice_data = copy_slice_data []

  abbrev pub copy_mpeg4_slice_data : Context → VaBuffer → PicParams → Context × PicParams
  copy_mpeg4_slice_data = copy_slice_data []

  abbrev pub copy_vc1_slice_data : Context → VaBuffer → PicParams → Context × PicParams
  copy_vc1_slice_data = copy_slice_data []

  -- Up to parseExtraInfo.
  abbrev pub copy_vp9_slice_data : Context → VaBuffer → PicParams → Context × PicParams
  copy_vp9_slice_data = copy_slice_data []

-- What the handler of VP8 reads of `CUVIDPICPARAMS`.
pub record Vp8Frame : Type 0 where
  pub frame_type : ℕ
  pub version : ℕ
  pub show_frame : Bool
  pub first_partition_size : ℕ
  pub width : ℕ
  pub height : ℕ

module _ (memalign : Memalign) (frame : Vp8Frame) (garbage : List ℕ) where
  -- The ten bytes of `frameHeader`, which start as `garbage`, and how many of them are written.
  abbrev pub vp8_header : ℕ × Option (List ℕ)
  vp8_header =
      build_vp8_frame_header (some garbage) (frame.frame_type == 0) frame.version frame.show_frame
        frame.first_partition_size frame.width frame.height

  -- The loop; false is a return before its end.
  pub copy_vp8_slices : VaBuffer → Context → List SliceParam → Bool × Context
  copy_vp8_slices buf ctx [] = (true, ctx)
  copy_vp8_slices buf ctx (s ∷ rest) =
      let (valid, ctx', data') =
        validate_slice_range (some ctx) (some buf) s.slice_data_offset s.slice_data_size in
      let (n, header) = vp8_header in
      let (fits, ctx1) = can_append_bitstream (some ctx) (n + s.slice_data_size) in
      let ctx2 = append_offset memalign ctx in
      let ctx3 = append_bitstream memalign ctx2 header n in
      let next =
        copy_vp8_slices buf (append_bitstream memalign ctx3 data' s.slice_data_size) rest in
      if not valid
      then (false, context_or ctx ctx')
      else if n == 0 || ltb (uint32_max - n) s.slice_data_size || not fits
      then (false, reject ctx)
      else next

  abbrev pub vp8_committed : PicParams → Bool × Context → Context × PicParams
  vp8_committed pic (false, ctx) = (ctx, pic)
  vp8_committed pic (true, ctx) = committed memalign ctx pic

  pub copy_vp8_slice_data : Context → VaBuffer → PicParams → Context × PicParams
  copy_vp8_slice_data ctx buf pic = vp8_committed pic (copy_vp8_slices buf ctx (slices_of ctx))

-- The handlers of slice parameters of HEVC, MPEG-2, MPEG-4, VC-1 and VP9.
pub copy_slice_param : Context → PicParams → List SliceParam → ℕ → Context × PicParams
copy_slice_param ctx pic params elements =
    let ctx1 = record ctx { last_slice_params = params; last_slice_params_count = elements } in
    let (done, ctx2, pic') = add_cuvid_slices (some ctx1) (some pic) elements in
    (context_or ctx1 ctx2, pic_or pic pic')
