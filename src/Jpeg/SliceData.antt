-- ===== src/Jpeg/SliceData.antt =====
-- copyJPEGSliceData of src/jpeg.c: the whole image is one slice for NVDEC.
use nvidia_vaapi_driver.Prelude.{
  ℕ, ◌-◌, Option, none, some, List, Bool, true, false, ltb, ◌==◌, if◌then◌else◌, take, uint32_max,
}
use nvidia_vaapi_driver.AppendableBuffer.{AppendableBuffer, Memalign, bytes, append_buffer}
use nvidia_vaapi_driver.Codec.Utils.{VaBuffer, Context, PicParams, reject}
use nvidia_vaapi_driver.Codec.Slices.{le32, put_offsets, put_bitstream, committed}
use nvidia_vaapi_driver.Jpeg.Types.{JpegSlice, JpegContext}
use nvidia_vaapi_driver.Jpeg.{reconstruct_jpeg}
use nvidia_vaapi_driver.Jpeg.Handlers.{JpegState, JpegPicture}

abbrev pub put_base : JpegState → Context → JpegState
put_base st ctx = record st { context = ctx }

-- The context is rejected unless an allocation has failed before.
abbrev pub reject_unless_failed : Context → Context
reject_unless_failed ctx = if ctx.bitstream_buffer.failed then ctx else reject ctx

-- The offset taken back.
abbrev pub drop_offset : Context → Context
drop_offset ctx = put_offsets ctx (record ctx.slice_offsets { size = ctx.slice_offsets.size - 4 })

module _ (memalign : Memalign) (data_flag_all : ℕ) where
  -- The lines behind reconstructJPEG.
  unfoldable pub after_reconstruct :
      Context → PicParams → Bool × AppendableBuffer × ℕ → Context × PicParams
  after_reconstruct ctx pic (false, output, frame_size) =
      (reject_unless_failed (drop_offset (put_bitstream ctx output)), pic)
  after_reconstruct ctx pic (true, output, frame_size) =
      committed memalign (put_bitstream ctx output) (record pic { num_slices = 1 })

  -- The lines from the append of the offset on.
  unfoldable pub append_image :
      Context
      → PicParams
      → JpegContext
      → List JpegSlice
      → VaBuffer
      → Bool × AppendableBuffer
      → Context × PicParams
  append_image ctx pic jpeg slices buf (false, offsets) = (put_offsets ctx offsets, pic)
  append_image ctx pic jpeg slices buf (true, offsets) =
      after_reconstruct (put_offsets ctx offsets) pic (
        reconstruct_jpeg memalign data_flag_all jpeg slices (bytes buf.ptr) buf.size
          ctx.bitstream_buffer)

  unfoldable pub copy_image :
      Context
      → PicParams
      → Option JpegContext
      → Option (List JpegSlice)
      → ℕ
      → VaBuffer
      → Context × PicParams
  copy_image ctx pic none slices count buf = (reject_unless_failed ctx, pic)
  copy_image ctx pic (some jpeg) none count buf = (reject ctx, pic)
  copy_image ctx pic (some jpeg) (some slices) count buf =
      if count == 0
      then (reject ctx, pic)
      else if ltb uint32_max buf.size
      then (reject ctx, pic)
      else if ltb uint32_max ctx.bitstream_buffer.size
      then (reject ctx, pic)
      else append_image ctx pic jpeg (take count slices) buf
          (append_buffer memalign ctx.slice_offsets (some (le32 ctx.bitstream_buffer.size)) 4)

  unfoldable pub copy_jpeg_slice_data : JpegState → VaBuffer → JpegPicture → JpegState × JpegPicture
  copy_jpeg_slice_data st buf pic =
      let r =
        copy_image st.context pic.cuvid st.codec_data st.last_slices st.last_slices_count buf in
      (put_base st r.0, record pic { cuvid = r.1 })
