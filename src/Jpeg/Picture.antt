-- ===== src/Jpeg/Picture.antt =====
-- copyJPEGSliceData as a whole: one image and its offset, or nothing.
use nvidia_vaapi_driver.Prelude.{
  ℕ, ◌-◌, ◌≤◌, ◌^◌, ◌≡◌, ◌≢◌, ◌⊎◌, inl, inr, refl, ap, sym, ◌∙◌, Option, none, some, List, [], ◌++◌,
  Bool, true, false, ltb, ◌==◌, if◌then◌else◌, Bool-cases, arith, length, take, take-append_left,
  take_shorter, uint32_max,
}
use nvidia_vaapi_driver.AppendableBuffer.{AppendableBuffer, Memalign, bytes, append_buffer}
use nvidia_vaapi_driver.AppendableBuffer.Laws.{
  IsValid, IsAllocator, Keeps, contents, length-contents, Appended, append_buffer-Appended,
}
use nvidia_vaapi_driver.Codec.Utils.{VaBuffer, Context, PicParams, reject}
use nvidia_vaapi_driver.Codec.Utils.Ranges.{commit-fits}
use nvidia_vaapi_driver.Codec.Slices.{le32, put_offsets, put_bitstream}
use nvidia_vaapi_driver.Codec.Slices.Whole.{Added, CopiedNone, Keeps-failed}
use nvidia_vaapi_driver.Jpeg.Types.{JpegSlice, JpegContext}
use nvidia_vaapi_driver.Jpeg.Frame.{AllChecked}
use nvidia_vaapi_driver.Jpeg.Output.{Rebuilt, NotRebuilt, Keeps-self, frame_of}
use nvidia_vaapi_driver.Jpeg.Reconstruct.{AllSized, used_tables, reconstruct-Outcome}
use nvidia_vaapi_driver.Jpeg.Handlers.{JpegState, JpegPicture}
use nvidia_vaapi_driver.Jpeg.SliceData.{
  drop_offset, after_reconstruct, append_image, copy_image, copy_jpeg_slice_data,
}

-- The image stands behind the bitstream, the place where it starts behind the offsets, and NVDEC
-- gets one slice.
pub record ImageCopied (flag : ℕ) (jpeg : JpegContext) (slices : List JpegSlice) (buf : VaBuffer)
    (ctx : Context) (r : Context × PicParams) : Type 0 where
  pub bitstream : IsValid r.0.bitstream_buffer
  pub stored :
      contents r.0.bitstream_buffer
      ≡ contents ctx.bitstream_buffer
        ++ frame_of jpeg (used_tables flag jpeg buf.size slices) (bytes buf.ptr) slices
  pub offsets : Added ctx.slice_offsets (le32 ctx.bitstream_buffer.size) r.0.slice_offsets
  pub same_validation : r.0.input_validation_failed ≡ ctx.input_validation_failed
  pub in_range : AllChecked buf.size slices
  pub committed : r.1 ≡ record { num_slices = 1; bitstream_data_len = r.0.bitstream_buffer.size }

-- The slice parameters that the pointer and the count stand for.
abbrev pub scan_slices : Option (List JpegSlice) → ℕ → List JpegSlice
scan_slices none count = []
scan_slices (some slices) count = take count slices

-- There are a context of the codec and slice parameters, and their image is copied.
pub record PictureCopied (flag : ℕ) (codec : Option JpegContext) (slices : Option (List JpegSlice))
    (count : ℕ) (buf : VaBuffer) (ctx : Context) (r : Context × PicParams) : Type 0 where
  pub jpeg : JpegContext
  pub has_jpeg : codec ≡ some jpeg
  pub has_slices : slices ≢ none
  pub image : ImageCopied flag jpeg (scan_slices slices count) buf ctx r

-- Bytes taken back leave what was there before.
taken_back-Keeps :
    (b o : AppendableBuffer) (new : List ℕ)
    → IsValid b
    → Added b new o
    → Keeps b (record o { size = o.size - length new })
taken_back-Keeps b o new v a =
    let back : o.size - length new ≡ b.size = omega (arith, a.grown) in
    record {
      valid = record {
        block = a.valid.block;
        fits = omega (arith, a.valid.fits);
        small = a.valid.small;
      };
      same_size = back;
      same_contents =
          ap (λ n. take n (bytes o.buf)) back
          ∙ sym (take_shorter b.size o.size (bytes o.buf) (omega (arith, a.grown)))
          ∙ ap (take b.size) a.stored
          ∙ take-append_left b.size (contents b) new (length-contents b v);
    }

-- Both buffers are kept, and the flags say that there is no image.
rejected-CopiedNone :
    (ctx c : Context) (pic : PicParams) (failed : Bool)
    → c.bitstream_buffer.failed ≡ failed
    → Keeps ctx.bitstream_buffer c.bitstream_buffer
    → Keeps ctx.slice_offsets c.slice_offsets
    → CopiedNone ctx pic ((if failed then c else reject c), pic)
rejected-CopiedNone ctx c pic true e k l = record {
  bitstream = k;
  offsets = l;
  same_pic = refl;
  flagged = inr (inl e);
}
rejected-CopiedNone ctx c pic false e k l = record {
  bitstream = k;
  offsets = l;
  same_pic = refl;
  flagged = inl refl;
}

module _ (memalign : Memalign) (alloc : IsAllocator memalign) (flag : ℕ) (buf : VaBuffer)
    (ctx : Context) (pic : PicParams) (v : IsValid ctx.bitstream_buffer)
    (w : IsValid ctx.slice_offsets) where
  abbrev Outcome : JpegContext → List JpegSlice → Context × PicParams → Type 0
  Outcome jpeg slices r = ImageCopied flag jpeg slices buf ctx r ⊎ CopiedNone ctx pic r

  rejected : CopiedNone ctx pic (reject ctx, pic)
  rejected = record {
    bitstream = Keeps-self ctx.bitstream_buffer v;
    offsets = Keeps-self ctx.slice_offsets w;
    same_pic = refl;
    flagged = inl refl;
  }

  after_reconstruct-Outcome :
      (jpeg : JpegContext) (slices : List JpegSlice) (o : AppendableBuffer)
      (r : Bool × AppendableBuffer × ℕ)
      → Added ctx.slice_offsets (le32 ctx.bitstream_buffer.size) o
      → Rebuilt jpeg
          (used_tables flag jpeg buf.size slices)
          slices
          (bytes buf.ptr)
          buf.size
          ctx.bitstream_buffer
          r
        ⊎ NotRebuilt ctx.bitstream_buffer r
      → Outcome jpeg slices (after_reconstruct memalign flag (put_offsets ctx o) pic r)
  unfolding after_reconstruct
  after_reconstruct-Outcome jpeg slices o (true, b, n) a (inr k) = cc (k.failure)
  after_reconstruct-Outcome jpeg slices o (false, b, n) a (inl k) = cc (k.success)
  after_reconstruct-Outcome jpeg slices o (false, b, n) a (inr k) = inr (
      rejected-CopiedNone ctx (drop_offset (put_bitstream (put_offsets ctx o) b)) pic b.failed refl
        k.kept (taken_back-Keeps ctx.slice_offsets o _ w a))
  after_reconstruct-Outcome jpeg slices o (true, b, n) a (inl k) =
      rw
        (commit-fits (put_bitstream (put_offsets ctx o) b) (record pic { num_slices = 1 })
          k.fits_32_bits)
        (inl (record {
          bitstream = k.valid;
          stored = k.stored;
          offsets = a;
          same_validation = refl;
          in_range = k.in_range;
          committed = refl;
        }))

  append_image-Outcome :
      (jpeg : JpegContext) (slices : List JpegSlice) (r : Bool × AppendableBuffer)
      → length slices ≤ 2 ^ 31
      → AllSized slices
      → Appended memalign alloc ctx.slice_offsets (le32 ctx.bitstream_buffer.size) 4 r
      → Outcome jpeg slices (append_image memalign flag ctx pic jpeg slices buf r)
  unfolding append_image
  append_image-Outcome jpeg slices (false, o) many sized a = inr (
      rw (a.refused refl) (record {
        bitstream = Keeps-self ctx.bitstream_buffer v;
        offsets = Keeps-failed ctx.slice_offsets w;
        same_pic = refl;
        flagged = inr (inr refl);
      }))
  append_image-Outcome jpeg slices (true, o) many sized a =
      let (stored, grown, same) = a.stored refl in
      after_reconstruct-Outcome jpeg slices o _
        (record { valid = a.valid; grown = grown; stored = stored; same_flag = same })
        (reconstruct-Outcome memalign alloc flag jpeg (bytes buf.ptr) buf.size ctx.bitstream_buffer
          v slices many sized)

  copy_image-Outcome :
      (codec : Option JpegContext) (slices : Option (List JpegSlice)) (count : ℕ)
      → length (scan_slices slices count) ≤ 2 ^ 31
      → AllSized (scan_slices slices count)
      → PictureCopied flag codec slices count buf ctx
          (copy_image memalign flag ctx pic codec slices count buf)
        ⊎ CopiedNone ctx pic (copy_image memalign flag ctx pic codec slices count buf)
  unfolding copy_image
  copy_image-Outcome none slices count many sized = inr (
      rejected-CopiedNone ctx ctx pic _ refl (Keeps-self ctx.bitstream_buffer v)
        (Keeps-self ctx.slice_offsets w))
  copy_image-Outcome (some jpeg) none count many sized = inr rejected
  copy_image-Outcome (some jpeg) (some slices) count many sized =
      let offset = le32 ctx.bitstream_buffer.size in
      let r = append_buffer memalign ctx.slice_offsets (some offset) 4 in
      elim (Bool-cases (count == 0)) [
        | inl h ↦ rw h (inr rejected)
        | inr h ↦ elim (Bool-cases (ltb uint32_max buf.size)) [
          | inl k ↦ rw (h, k) (inr rejected)
          | inr k ↦ elim (Bool-cases (ltb uint32_max ctx.bitstream_buffer.size)) [
            | inl l ↦ rw (h, k, l) (inr rejected)
            | inr l ↦
                rw (h, k, l)
                  (elim (append_image-Outcome jpeg (take count slices) r many sized (
                    append_buffer-Appended memalign alloc ctx.slice_offsets offset 4 w (omega arith)
                      (omega arith))) [
                        | inl a ↦ inl (record {
                          jpeg = jpeg;
                          has_jpeg = refl;
                          has_slices = λ e. cc;
                          image = a;
                        })
                        | inr a ↦ inr a
                      ])
          ]
        ]
      ]

-- copyJPEGSliceData with valid buffers and an array of at most 2 ^ 31 slices of 32-bit sizes: either
-- it appends one whole image and the place where it starts and commits one slice, or both buffers
-- keep their bytes, the picture is as it was and a flag of the context says that it failed.
pub copy_jpeg_slice_data-Outcome :
    (memalign : Memalign) (flag : ℕ) (st : JpegState) (buf : VaBuffer) (pic : JpegPicture)
    → IsAllocator memalign
    → IsValid st.context.bitstream_buffer
    → IsValid st.context.slice_offsets
    → length (scan_slices st.last_slices st.last_slices_count) ≤ 2 ^ 31
    → AllSized (scan_slices st.last_slices st.last_slices_count)
    → let r = copy_jpeg_slice_data memalign flag st buf pic in
      PictureCopied flag st.codec_data st.last_slices st.last_slices_count buf st.context
        (r.0.context, r.1.cuvid)
      ⊎ CopiedNone st.context pic.cuvid (r.0.context, r.1.cuvid)
unfolding copy_jpeg_slice_data
copy_jpeg_slice_data-Outcome memalign flag st buf pic alloc v w many sized =
    copy_image-Outcome memalign alloc flag buf st.context pic.cuvid v w st.codec_data st.last_slices
      st.last_slices_count many sized
