-- ===== src/Codec/Slices/Append.antt =====
-- The second loop of the slice handlers: the slices are appended to buffers with room for them.
use nvidia_vaapi_driver.Prelude.{
  ℕ, ◌+◌, ◌*◌, ◌%◌, ◌^◌, ◌≤◌, ◌≡◌, refl, ap, sym, ◌∙◌, Option, none, some, List, [], ◌∷◌, ◌++◌,
  false, take, drop, length, length-drop, length-append, length-take_of_le, take_all, append_assoc,
  append-nil, arith,
}
use nvidia_vaapi_driver.AppendableBuffer.{AppendableBuffer, Memalign, bytes, is_null, append_buffer}
use nvidia_vaapi_driver.AppendableBuffer.Laws.{
  IsValid, IsAllocator, contents, append_buffer-Appended,
}
use nvidia_vaapi_driver.AppendableBuffer.Trim.{append-into_room, append-same_block}
use nvidia_vaapi_driver.Codec.Utils.{VaBuffer, SliceParam, Context, data_at}
use nvidia_vaapi_driver.Codec.Slices.{le32, append_slice, append_slices}
use nvidia_vaapi_driver.Codec.Slices.Measure.{InRange, AllInRange, needed}

-- `b'` is `b` with the bytes `new` behind, in the same block.
pub record Filled (b : AppendableBuffer) (new : List ℕ) (b' : AppendableBuffer) : Type 0 where
  pub valid : IsValid b'
  pub same_block : b'.allocated ≡ b.allocated
  pub grown : b'.size ≡ b.size + length new
  pub stored : contents b' ≡ contents b ++ new
  pub same_flag : b'.failed ≡ b.failed

pub Filled-none : (b : AppendableBuffer) → IsValid b → Filled b [] b
Filled-none b v = record {
  valid = v;
  same_block = refl;
  grown = omega arith;
  stored = sym (append-nil (contents b));
  same_flag = refl;
}

pub Filled-next :
    (a b c : AppendableBuffer) (xs ys : List ℕ)
    → Filled a xs b
    → Filled b ys c
    → Filled a (xs ++ ys) c
Filled-next a b c xs ys f g = record {
  valid = g.valid;
  same_block = g.same_block ∙ f.same_block;
  grown = omega (arith, f.grown, g.grown, length-append xs ys);
  stored = g.stored ∙ ap (λ l. l ++ ys) f.stored ∙ append_assoc (contents a) xs ys;
  same_flag = g.same_flag ∙ f.same_flag;
}

module _ (memalign : Memalign) (alloc : IsAllocator memalign) where
  -- appendBuffer into room that is there.
  pub append-Filled :
      (b : AppendableBuffer) (src : List ℕ) (n : ℕ)
      → IsValid b
      → n ≤ length src
      → b.size + n ≤ b.allocated
      → Filled b (take n src) (append_buffer memalign b (some src) n).1
  append-Filled b src n v h room =
      let r = append_buffer-Appended memalign alloc b src n v h (omega (arith, v.small)) in
      let done = append-into_room memalign b src n v h room in
      let (stored, size, flag) = r.stored done in
      record {
        valid = r.valid;
        same_block = append-same_block memalign b src n v room;
        grown = omega (arith, size, length-take_of_le n src h);
        stored = stored;
        same_flag = flag;
      }

abbrev pub slice_bytes : VaBuffer → SliceParam → List ℕ
slice_bytes buf s = take s.slice_data_size (drop s.slice_data_offset (bytes buf.ptr))

-- What the slices add to the bitstream and to the slice offsets.
unfoldable pub stream : List ℕ → VaBuffer → List SliceParam → List ℕ
stream header buf [] = []
stream header buf (s ∷ rest) = (header ++ slice_bytes buf s) ++ stream header buf rest

unfoldable pub offsets_from : ℕ → ℕ → List SliceParam → List ℕ
offsets_from h base [] = []
offsets_from h base (s ∷ rest) =
    le32 (base % 2 ^ 32) ++ offsets_from h (base + (h + s.slice_data_size)) rest

-- `ctx'` is `ctx` with these slices copied, and its flags as they were.
pub record Copied (header : List ℕ) (buf : VaBuffer) (slices : List SliceParam) (ctx ctx' : Context)
    : Type 0 where
  pub bitstream : Filled ctx.bitstream_buffer (stream header buf slices) ctx'.bitstream_buffer
  pub offsets :
      Filled ctx.slice_offsets
        (offsets_from (length header) ctx.bitstream_buffer.size slices)
        ctx'.slice_offsets
  pub same_validation : ctx'.input_validation_failed ≡ ctx.input_validation_failed

data_at-mapped :
    (o : Option (List ℕ)) (offset : ℕ)
    → is_null o ≡ false
    → data_at o offset ≡ some (drop offset (bytes o))
data_at-mapped none offset h = cc
data_at-mapped (some m) offset h = refl

slice-length :
    (buf : VaBuffer) (s : SliceParam)
    → buf.size ≤ length (bytes buf.ptr)
    → InRange buf s
    → s.slice_data_size ≤ length (drop s.slice_data_offset (bytes buf.ptr))
slice-length buf s backed r =
    omega (arith, r.inside, length-drop s.slice_data_offset (bytes buf.ptr))

module _ (memalign : Memalign) (alloc : IsAllocator memalign) (header : List ℕ) (buf : VaBuffer)
    (backed : buf.size ≤ length (bytes buf.ptr)) where
  -- One round puts the offset, the header and the slice.
  append_slice-bitstream :
      (ctx : Context) (s : SliceParam)
      → IsValid ctx.bitstream_buffer
      → InRange buf s
      → ctx.bitstream_buffer.size + (length header + s.slice_data_size)
        ≤ ctx.bitstream_buffer.allocated
      → Filled ctx.bitstream_buffer
          (header ++ slice_bytes buf s)
          (append_slice memalign header buf ctx s).bitstream_buffer
  append_slice-bitstream ctx s v r room =
      let d = drop s.slice_data_offset (bytes buf.ptr) in
      let b = ctx.bitstream_buffer in
      let b1 = (append_buffer memalign b (some header) (length header)).1 in
      let whole = take_all (length header) header (omega arith) in
      let f : Filled b header b1 =
        rw whole at
          (append-Filled memalign alloc b header (length header) v (omega arith) (omega arith)) in
      let g =
        append-Filled memalign alloc b1 d s.slice_data_size f.valid (slice-length buf s backed r)
          (omega (arith, f.grown, f.same_block)) in
      rw (data_at-mapped buf.ptr s.slice_data_offset r.mapped)
        (Filled-next b b1 _ header (take s.slice_data_size d) f g)

  append_slice-offsets :
      (ctx : Context) (s : SliceParam)
      → IsValid ctx.slice_offsets
      → ctx.slice_offsets.size + 4 ≤ ctx.slice_offsets.allocated
      → Filled ctx.slice_offsets
          (le32 (ctx.bitstream_buffer.size % 2 ^ 32))
          (append_slice memalign header buf ctx s).slice_offsets
  append_slice-offsets ctx s v room =
      append-Filled memalign alloc ctx.slice_offsets (le32 (ctx.bitstream_buffer.size % 2 ^ 32)) 4 v
        (omega arith) room

  length-slice_bytes :
      (s : SliceParam) → InRange buf s → length (slice_bytes buf s) ≡ s.slice_data_size
  length-slice_bytes s r =
      length-take_of_le s.slice_data_size (drop s.slice_data_offset (bytes buf.ptr))
        (slice-length buf s backed r)

  pub length-stream :
      (slices : List SliceParam)
      → AllInRange buf slices
      → length (stream header buf slices) ≡ needed (length header) slices
  unfolding stream needed
  length-stream [] all = refl
  length-stream (s ∷ rest) (r, all) = omega (
    arith,
    length-append (header ++ slice_bytes buf s) (stream header buf rest),
    length-append header (slice_bytes buf s),
    length-slice_bytes s r,
    length-stream rest all,
  )

  pub append_slices-Copied :
      (ctx : Context) (slices : List SliceParam)
      → IsValid ctx.bitstream_buffer
      → IsValid ctx.slice_offsets
      → AllInRange buf slices
      → ctx.bitstream_buffer.size + needed (length header) slices ≤ ctx.bitstream_buffer.allocated
      → ctx.slice_offsets.size + length slices * 4 ≤ ctx.slice_offsets.allocated
      → Copied header buf slices ctx (append_slices memalign header buf ctx slices)
  unfolding append_slices stream offsets_from needed
  append_slices-Copied ctx [] v w all room room4 = record {
    bitstream = Filled-none ctx.bitstream_buffer v;
    offsets = Filled-none ctx.slice_offsets w;
    same_validation = refl;
  }
  append_slices-Copied ctx (s ∷ rest) v w (r, all) room room4 =
      let ctx1 = append_slice memalign header buf ctx s in
      let f = append_slice-bitstream ctx s v r (omega arith) in
      let o = append_slice-offsets ctx s w (omega arith) in
      let here = length-slice_bytes s r in
      let size : ctx1.bitstream_buffer.size
          ≡ ctx.bitstream_buffer.size + (length header + s.slice_data_size) =
        omega (arith, f.grown, length-append header (slice_bytes buf s), here) in
      let k =
        append_slices-Copied ctx1 rest f.valid o.valid all (omega (arith, size, f.same_block, room))
          (omega (arith, o.grown, o.same_block, room4)) in
      record {
        bitstream =
            Filled-next ctx.bitstream_buffer ctx1.bitstream_buffer _ (header ++ slice_bytes buf s)
              (stream header buf rest) f k.bitstream;
        offsets = Filled-next ctx.slice_offsets ctx1.slice_offsets _ _ _ o (rw size at k.offsets);
        same_validation = k.same_validation;
      }
