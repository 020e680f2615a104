-- ===== src/Codec/Slices/Whole.antt =====
-- The slice data handlers as a whole: all the slices are copied, or none.
use nvidia_vaapi_driver.Prelude.{
  ℕ, ◌+◌, ◌*◌, ◌≤◌, ◌≡◌, ◌⊎◌, inl, inr, refl, ap, ◌∙◌, Option, none, some, List, ◌++◌, true, length,
  length-take_of_le, size_max, uint32_max, arith, Bool-cases,
}
use nvidia_vaapi_driver.AppendableBuffer.{
  AppendableBuffer, Memalign, bytes, reserve_buffer_elements, reserve_additional_buffer,
}
use nvidia_vaapi_driver.AppendableBuffer.Laws.{
  IsValid, IsAllocator, contents, Keeps, reserve_additional-Reserved,
}
use nvidia_vaapi_driver.AppendableBuffer.Trim.{
  reserve_elements-Reserved, AlwaysAllocates, reserve_elements-succeeds,
  reserve_additional-succeeds,
}
use nvidia_vaapi_driver.Codec.Utils.{VaBuffer, Context, PicParams, reject}
use nvidia_vaapi_driver.Codec.Utils.Ranges.{can_append-cases, commit-fits}
use nvidia_vaapi_driver.Codec.Slices.{
  slices_of, fail_bitstream, measure_slices, append_slices, reserve_and_append, checked_append,
  committed, copy_slice_data,
}
use nvidia_vaapi_driver.Codec.Slices.Measure.{
  AllInRange, AllSmall, Answer, needed, measure_slices-Answer, measure_slices-passes,
}
use nvidia_vaapi_driver.Codec.Slices.Append.{
  Filled, stream, offsets_from, append_slices-Copied, length-stream,
}

-- `b'` is `b` with the bytes `new` behind.
pub record Added (b : AppendableBuffer) (new : List ℕ) (b' : AppendableBuffer) : Type 0 where
  pub valid : IsValid b'
  pub grown : b'.size ≡ b.size + length new
  pub stored : contents b' ≡ contents b ++ new
  pub same_flag : b'.failed ≡ b.failed

-- All the slices are copied, the offset of each is where it starts, and the length is stored.
pub record CopiedAll (header : List ℕ) (buf : VaBuffer) (ctx : Context) (pic : PicParams)
    (r : Context × PicParams) : Type 0 where
  pub bitstream :
      Added ctx.bitstream_buffer (stream header buf (slices_of ctx)) r.0.bitstream_buffer
  pub offsets :
      Added ctx.slice_offsets
        (offsets_from (length header) ctx.bitstream_buffer.size (slices_of ctx))
        r.0.slice_offsets
  pub same_validation : r.0.input_validation_failed ≡ ctx.input_validation_failed
  pub in_range : AllInRange buf (slices_of ctx)
  pub committed : r.1 ≡ record pic { bitstream_data_len = r.0.bitstream_buffer.size }

-- Nothing is copied, and the context says so.
pub record CopiedNone (ctx : Context) (pic : PicParams) (r : Context × PicParams) : Type 0 where
  pub bitstream : Keeps ctx.bitstream_buffer r.0.bitstream_buffer
  pub offsets : Keeps ctx.slice_offsets r.0.slice_offsets
  pub same_pic : r.1 ≡ pic
  pub flagged :
      (r.0.input_validation_failed ≡ true)
      ⊎ (r.0.bitstream_buffer.failed ≡ true)
      ⊎ (r.0.slice_offsets.failed ≡ true)

Keeps-self : (b : AppendableBuffer) → IsValid b → Keeps b b
Keeps-self b v = record { valid = v; same_size = refl; same_contents = refl }

pub Keeps-failed : (b : AppendableBuffer) → IsValid b → Keeps b (record b { failed = true })
Keeps-failed b v = record {
  valid = record { block = v.block; fits = v.fits; small = v.small };
  same_size = refl;
  same_contents = refl;
}

-- Bytes put behind a buffer that was reserved before.
Added-reserved :
    (b b1 b2 : AppendableBuffer) (new : List ℕ)
    → Keeps b b1
    → b1.failed ≡ b.failed
    → Filled b1 new b2
    → Added b new b2
Added-reserved b b1 b2 new k flag f = record {
  valid = f.valid;
  grown = omega (arith, f.grown, k.same_size);
  stored = f.stored ∙ ap (λ l. l ++ new) k.same_contents;
  same_flag = f.same_flag ∙ flag;
}

Added-congr : (b b' : AppendableBuffer) (xs ys : List ℕ) → xs ≡ ys → Added b xs b' → Added b ys b'
Added-congr b b' xs ys e a = rw (← e) a

module _ (memalign : Memalign) (alloc : IsAllocator memalign) (header : List ℕ) (buf : VaBuffer)
    (backed : buf.size ≤ length (bytes buf.ptr)) (ctx : Context) (pic : PicParams)
    (v : IsValid ctx.bitstream_buffer) (w : IsValid ctx.slice_offsets)
    (counted : ctx.last_slice_params_count ≤ length ctx.last_slice_params) where
  abbrev Outcome : Context × PicParams → Type 0
  Outcome r = CopiedAll header buf ctx pic r ⊎ CopiedNone ctx pic r

  rejected : Outcome (reject ctx, pic)
  rejected = inr (record {
    bitstream = Keeps-self ctx.bitstream_buffer v;
    offsets = Keeps-self ctx.slice_offsets w;
    same_pic = refl;
    flagged = inl refl;
  })

  overflown : Outcome (fail_bitstream ctx, pic)
  overflown = inr (record {
    bitstream = Keeps-failed ctx.bitstream_buffer v;
    offsets = Keeps-self ctx.slice_offsets w;
    same_pic = refl;
    flagged = inr (inl refl);
  })

  -- The slices appended to the reserved buffers.
  appended-CopiedAll :
      (n : ℕ)
      → n ≡ needed (length header) (slices_of ctx)
      → AllInRange buf (slices_of ctx)
      → ctx.bitstream_buffer.size + n ≤ uint32_max
      → (o b : AppendableBuffer) → Keeps ctx.slice_offsets o
      → Keeps ctx.bitstream_buffer b
      → o.failed ≡ ctx.slice_offsets.failed
      → b.failed ≡ ctx.bitstream_buffer.failed
      → ctx.slice_offsets.size + ctx.last_slice_params_count * 4 ≤ o.allocated
      → ctx.bitstream_buffer.size + n ≤ b.allocated
      → CopiedAll header buf ctx pic (
          committed memalign
            (append_slices memalign header buf
              (record ctx { slice_offsets = o; bitstream_buffer = b })
              (slices_of ctx))
            pic)
  appended-CopiedAll n e all fits o b ko kb fo fb room4 room =
      let slices = slices_of ctx in
      let ctx2 : Context = record ctx { slice_offsets = o; bitstream_buffer = b } in
      let many : length slices ≡ ctx.last_slice_params_count =
        length-take_of_le ctx.last_slice_params_count ctx.last_slice_params counted in
      let f =
        append_slices-Copied memalign alloc header buf backed ctx2 slices kb.valid ko.valid all
          (omega (arith, kb.same_size, e, room)) (omega (arith, ko.same_size, many, room4)) in
      let ctx3 = append_slices memalign header buf ctx2 slices in
      let long = length-stream memalign alloc header buf backed slices all in
      let small : ctx3.bitstream_buffer.size ≤ uint32_max =
        omega (arith, f.bitstream.grown, kb.same_size, long, e, fits) in
      rw (commit-fits ctx3 pic small) (record {
        bitstream = Added-reserved ctx.bitstream_buffer b _ _ kb fb f.bitstream;
        offsets =
            Added-congr ctx.slice_offsets _ _ _
              (ap (λ (base : ℕ). offsets_from (length header) base slices) kb.same_size)
              (Added-reserved ctx.slice_offsets o _ _ ko fo f.offsets);
        same_validation = f.same_validation;
        in_range = all;
        committed = refl;
      })

  reserved-CopiedAll :
      (n : ℕ)
      → n ≡ needed (length header) (slices_of ctx)
      → n ≤ size_max
      → AllInRange buf (slices_of ctx)
      → ctx.bitstream_buffer.size + n ≤ uint32_max
      → (reserve_buffer_elements memalign ctx.slice_offsets ctx.last_slice_params_count 4).0 ≡ true
      → (reserve_additional_buffer memalign ctx.bitstream_buffer n).0 ≡ true
      → CopiedAll header buf ctx pic (reserve_and_append memalign header buf ctx pic n)
  reserved-CopiedAll n e b all fits done done' =
      let count = ctx.last_slice_params_count in
      let k = reserve_elements-Reserved memalign alloc ctx.slice_offsets count 4 w in
      let m = reserve_additional-Reserved memalign alloc ctx.bitstream_buffer n v b in
      let r = reserve_buffer_elements memalign ctx.slice_offsets count 4 in
      let s = reserve_additional_buffer memalign ctx.bitstream_buffer n in
      rw (done, done')
        (appended-CopiedAll n e all fits r.1 s.1 k.keeps m.keeps (k.room done).1 (m.room done').1
          (k.room done).0 (m.room done').0)

  reserved-Outcome :
      (n : ℕ)
      → n ≡ needed (length header) (slices_of ctx)
      → n ≤ size_max
      → AllInRange buf (slices_of ctx)
      → ctx.bitstream_buffer.size + n ≤ uint32_max
      → Outcome (reserve_and_append memalign header buf ctx pic n)
  reserved-Outcome n e b all fits =
      let o = ctx.slice_offsets in
      let count = ctx.last_slice_params_count in
      let r = reserve_buffer_elements memalign o count 4 in
      let k = reserve_elements-Reserved memalign alloc o count 4 w in
      let s = reserve_additional_buffer memalign ctx.bitstream_buffer n in
      let m = reserve_additional-Reserved memalign alloc ctx.bitstream_buffer n v b in
      elim (Bool-cases r.0) [
        | inr failed ↦ rw failed (
            inr (record {
              bitstream = Keeps-self ctx.bitstream_buffer v;
              offsets = k.keeps;
              same_pic = refl;
              flagged = inr (inr (ap (λ (b : AppendableBuffer). b.failed) (k.refused failed)));
            }))
        | inl done ↦ elim (Bool-cases s.0) [
          | inr failed ↦
              rw (done, failed)
                (inr (record {
                  bitstream = m.keeps;
                  offsets = k.keeps;
                  same_pic = refl;
                  flagged = inr (inl (ap (λ (b : AppendableBuffer). b.failed) (m.refused failed)));
                }))
          | inl done' ↦ inl (reserved-CopiedAll n e b all fits done done')
        ]
      ]

  -- From the check of the length on.
  checked-Outcome :
      (n : ℕ)
      → n ≡ needed (length header) (slices_of ctx)
      → n ≤ size_max
      → AllInRange buf (slices_of ctx)
      → Outcome (checked_append memalign header buf pic (ctx, some n))
  checked-Outcome n e b all = elim (can_append-cases ctx n) [
    | inl (q, fits) ↦ rw q (reserved-Outcome n e b all fits)
    | inr (q, over) ↦ rw q rejected
  ]

  answered-Outcome :
      (r : Context × Option ℕ)
      → Answer (length header) buf ctx (slices_of ctx) 0 r
      → Outcome (checked_append memalign header buf pic r)
  answered-Outcome (ctx', none) (inl q) = rw q rejected
  answered-Outcome (ctx', none) (inr q) = rw q overflown
  answered-Outcome (ctx', some n) (q, e, b, all) = rw q (checked-Outcome n (omega (arith, e)) b all)

  -- The slice data handlers of H.264, HEVC, MPEG-2, MPEG-4 and VC-1 and that of VP9, without the
  -- reading of its header (that of VP8 is not covered), copy every slice that the last slice
  -- parameters name, the header before each, with its offset, and store the new length of the
  -- bitstream, if every slice lies in the buffer; else, and where memory fails, they change no byte
  -- and mark the context. The buffers are valid, memalign answers with blocks of the size asked for,
  -- the parameters are as many as counted and their sizes with the header fit in 32 bits.
  pub copy_slice_data-Outcome :
      AllSmall (length header) (slices_of ctx)
      → CopiedAll header buf ctx pic (copy_slice_data memalign header ctx buf pic)
        ⊎ CopiedNone ctx pic (copy_slice_data memalign header ctx buf pic)
  unfolding copy_slice_data
  copy_slice_data-Outcome small =
      answered-Outcome (measure_slices (length header) buf ctx (slices_of ctx) 0)
        (measure_slices-Answer (length header) buf ctx (slices_of ctx) 0 (omega arith) small)

  -- The slice data handlers of H.264, HEVC, MPEG-2, MPEG-4 and VC-1 and that of VP9, without the
  -- reading of its header (that of VP8 is not covered), do copy every slice if each lies in the
  -- buffer, the bitstream stays within 32 bits and the offsets within `size_t`, and memalign never
  -- fails. The buffers are valid and each slice with the header fits in 32 bits.
  pub copy_slice_data-CopiedAll :
      AllSmall (length header) (slices_of ctx)
      → AllInRange buf (slices_of ctx)
      → ctx.bitstream_buffer.size + needed (length header) (slices_of ctx) ≤ uint32_max
      → ctx.slice_offsets.size + ctx.last_slice_params_count * 4 ≤ size_max
      → AlwaysAllocates memalign
      → CopiedAll header buf ctx pic (copy_slice_data memalign header ctx buf pic)
  unfolding copy_slice_data
  copy_slice_data-CopiedAll small all fits fits4 always =
      let n = needed (length header) (slices_of ctx) in
      let e : 0 + n ≡ n = omega arith in
      let b : n ≤ size_max = omega (arith, fits) in
      let passes =
        measure_slices-passes (length header) buf ctx (slices_of ctx) 0 small all
          (omega (arith, b)) in
      rw (passes, e)
        (elim (can_append-cases ctx n) [
          | inr (q, over) ↦ absurd (omega (arith, fits, over))
          | inl (q, fits') ↦ rw q (
              reserved-CopiedAll n refl b all fits
                (reserve_elements-succeeds memalign ctx.slice_offsets ctx.last_slice_params_count 4
                  always (omega (arith, fits4)) fits4)
                (reserve_additional-succeeds memalign ctx.bitstream_buffer n always b
                  (omega (arith, fits))))
        ])
