-- ===== src/Jpeg/Output.antt =====
-- What reconstructJPEG writes into a block with room for it.
use nvidia_vaapi_driver.Prelude.{
  ℕ, ◌+◌, ◌-◌, ◌*◌, ◌≤◌, ◌≡◌, ◌⊎◌, inl, inr, refl, ap, sym, ◌∙◌, List, [], ◌∷◌, ◌++◌, Bool, true,
  false, ltb, Bool-cases, arith, length, length-append, take, drop, length-drop, take-append_left,
  uint32_max, append_assoc,
}
use nvidia_vaapi_driver.AppendableBuffer.{AppendableBuffer, bytes}
use nvidia_vaapi_driver.AppendableBuffer.Laws.{IsValid, contents, length-contents, Keeps}
use nvidia_vaapi_driver.Jpeg.Types.{JpegSlice, JpegContext}
use nvidia_vaapi_driver.Jpeg.Tables.{jfif_header}
use nvidia_vaapi_driver.Jpeg.Writers.{write_dqt, write_sof0}
use nvidia_vaapi_driver.Jpeg.{
  Usage, frame_from, write_behind, finish_frame, tried_tables, write_frame, uses_va_huffman,
  va_tables,
}
use nvidia_vaapi_driver.Jpeg.Bounds.{write_dqt_bound, va_tables_bound, length-write_sof0}
use nvidia_vaapi_driver.Jpeg.Frame.{AllChecked, total_size, frame_from_bound}

-- Bytes put behind those in use, inside the block, change nothing in use.
write_behind-Keeps :
    (b : AppendableBuffer) (new : List ℕ)
    → IsValid b
    → b.size + length new ≤ b.allocated
    → Keeps b (write_behind b new)
write_behind-Keeps b new v room =
    let m = bytes b.buf in
    let rest = drop (b.size + length new) m in
    let used = length-contents b v in
    record {
      valid = record {
        block = omega (
          arith,
          used,
          v.block,
          length-append (take b.size m ++ new) rest,
          length-append (take b.size m) new,
          length-drop (b.size + length new) m,
        );
        fits = v.fits;
        small = v.small;
      };
      same_size = refl;
      same_contents =
          ap (take b.size) (append_assoc (take b.size m) new rest)
          ∙ take-append_left b.size (take b.size m) (new ++ rest) used;
    }

-- Counted as in use they are the new contents.
write_behind-contents :
    (b : AppendableBuffer) (new : List ℕ)
    → IsValid b
    → contents (record (write_behind b new) { size = b.size + length new }) ≡ contents b ++ new
write_behind-contents b new v =
    let m = bytes b.buf in
    let used = length-contents b v in
    take-append_left (b.size + length new) (take b.size m ++ new) (drop (b.size + length new) m)
      (omega (arith, used, length-append (take b.size m) new))

-- The image for these parameters.
unfoldable pub frame_of : JpegContext → Usage → List ℕ → List JpegSlice → List ℕ
frame_of jpeg u memory [] = []
frame_of jpeg u memory (first ∷ rest) =
    frame_from
      (jfif_header ++ (write_dqt jpeg.quant_tables jpeg.pic_params jpeg.valid_quant_tables_mask).1)
      jpeg u memory first rest

-- The image stands behind what was in the output, and its size is answered.
pub record Rebuilt (jpeg : JpegContext) (usage : Usage) (slices : List JpegSlice) (memory : List ℕ)
    (data_size : ℕ) (output : AppendableBuffer) (r : Bool × AppendableBuffer × ℕ) : Type 0 where
  pub success : r.0 ≡ true
  pub valid : IsValid r.1
  pub stored : contents r.1 ≡ contents output ++ frame_of jpeg usage memory slices
  pub out_size : r.2 ≡ length (frame_of jpeg usage memory slices)
  pub grown : r.1.size ≡ output.size + r.2
  pub fits_32_bits : r.1.size ≤ uint32_max
  pub tables : (write_dqt jpeg.quant_tables jpeg.pic_params jpeg.valid_quant_tables_mask).0 ≡ true
  pub in_range : AllChecked data_size slices

-- It fails and what was in the output stays.
pub record NotRebuilt (output : AppendableBuffer) (r : Bool × AppendableBuffer × ℕ) : Type 0 where
  pub failure : r.0 ≡ false
  pub kept : Keeps output r.1

Keeps-next : (a b c : AppendableBuffer) → Keeps a b → Keeps b c → Keeps a c
Keeps-next a b c k l = record {
  valid = l.valid;
  same_size = l.same_size ∙ k.same_size;
  same_contents = l.same_contents ∙ k.same_contents;
}

pub Keeps-self : (b : AppendableBuffer) → IsValid b → Keeps b b
Keeps-self b v = record { valid = v; same_size = refl; same_contents = refl }

module _ (jpeg : JpegContext) (memory : List ℕ) (data_size : ℕ) (output : AppendableBuffer)
    (few : jpeg.pic_params.num_components ≤ 4) (u : Usage) (first : JpegSlice)
    (rest : List JpegSlice) (all : AllChecked data_size (first ∷ rest)) where
  abbrev Outcome : Bool × AppendableBuffer × ℕ → Type 0
  Outcome r = Rebuilt jpeg u (first ∷ rest) memory data_size output r ⊎ NotRebuilt output r

  abbrev tables : Bool × List ℕ
  tables = write_dqt jpeg.quant_tables jpeg.pic_params jpeg.valid_quant_tables_mask

  -- What the reservation has to hold.
  abbrev bound : ℕ
  bound =
      740
      + jpeg.pic_params.num_components * 3
      + length (first ∷ rest) * 22
      + total_size (first ∷ rest)

  length-start : length (jfif_header ++ tables.1) ≤ 296
  length-start = omega (
    arith,
    write_dqt_bound jpeg.quant_tables jpeg.pic_params jpeg.valid_quant_tables_mask,
    length-append jfif_header tables.1,
  )

  finish_frame-Outcome :
      (b : AppendableBuffer)
      → tables.0 ≡ true
      → Keeps output b
      → b.size + length (frame_of jpeg u memory (first ∷ rest)) ≤ b.allocated
      → Outcome (finish_frame b (frame_of jpeg u memory (first ∷ rest)))
  unfolding finish_frame
  finish_frame-Outcome b t k room =
      let frame = frame_of jpeg u memory (first ∷ rest) in
      let n = length frame in
      let w = write_behind-Keeps b frame k.valid room in
      elim (Bool-cases (ltb uint32_max n)) [
        | inl long ↦ rw long (inr (record { failure = refl; kept = Keeps-next output b _ k w }))
        | inr short ↦ elim (Bool-cases (ltb (uint32_max - n) b.size)) [
          | inl far ↦
              rw (short, far) (inr (record { failure = refl; kept = Keeps-next output b _ k w }))
          | inr near ↦
              rw (short, near)
                (inl (record {
                  success = refl;
                  valid = record {
                    block = w.valid.block;
                    fits = omega (arith, room);
                    small = w.valid.small;
                  };
                  stored =
                      write_behind-contents b frame k.valid ∙ ap (λ l. l ++ frame) k.same_contents;
                  out_size = refl;
                  grown = omega (arith, k.same_size);
                  fits_32_bits = ground arith;
                  tables = t;
                  in_range = all;
                }))
        ]
      ]

  tried_tables-Keeps :
      (b : AppendableBuffer)
      → Keeps output b
      → output.size + bound ≤ b.allocated
      → let b' = tried_tables b jpeg u (jfif_header ++ tables.1 ++ write_sof0 jpeg.pic_params) in
        Keeps output b' × (b'.allocated ≡ b.allocated)
  tried_tables-Keeps b k room =
      let start = jfif_header ++ tables.1 ++ write_sof0 jpeg.pic_params in
      let va = va_tables jpeg u in
      let short : length (start ++ va.1) ≤ bound = omega (
        arith,
        length-start,
        length-append start va.1,
        length-append (jfif_header ++ tables.1) (write_sof0 jpeg.pic_params),
        length-write_sof0 jpeg.pic_params,
        va_tables_bound jpeg.huffman_tables u.dc u.ac jpeg.valid_huffman_dc_mask
            jpeg.valid_huffman_ac_mask,
      ) in
      elim (Bool-cases (uses_va_huffman jpeg u)) [
        | inr none_used ↦ rw none_used (k, refl)
        | inl used ↦ rw used (
          Keeps-next output b _ k (
              write_behind-Keeps b (start ++ va.1) k.valid
                (omega (arith, short, room, k.same_size))),
          refl,
        )
      ]

  pub write_frame-Outcome :
      (b : AppendableBuffer) (t : Bool × List ℕ)
      → t ≡ tables
      → Keeps output b
      → output.size + bound ≤ b.allocated
      → Outcome (write_frame b jpeg u memory first rest t)
  unfolding write_frame frame_of
  write_frame-Outcome b (false, dqt) e k room =
      let same : dqt ≡ tables.1 = ap (λ (r : Bool × List ℕ). r.1) e in
      let short : length (jfif_header ++ dqt) ≤ 296 = rw same length-start in
      inr (record {
        failure = refl;
        kept = Keeps-next output b _ k (
            write_behind-Keeps b (jfif_header ++ dqt) k.valid
              (omega (arith, short, room, k.same_size)));
      })
  write_frame-Outcome b (true, dqt) e k room =
      let same : dqt ≡ tables.1 = ap (λ (r : Bool × List ℕ). r.1) e in
      let done : true ≡ tables.0 = ap (λ (r : Bool × List ℕ). r.0) e in
      let (k', a) = tried_tables-Keeps b k room in
      let frame =
        frame_from_bound (jfif_header ++ tables.1) jpeg u memory data_size first rest length-start
          all in
      rw same (
        finish_frame-Outcome
          (tried_tables b jpeg u (jfif_header ++ tables.1 ++ write_sof0 jpeg.pic_params)) (sym done)
          k' (omega (arith, room, frame, a, k'.same_size)))
