-- ===== src/Jpeg/Reconstruct.antt =====
-- reconstructJPEG as a whole: the checks, the reservation and the image.
use nvidia_vaapi_driver.Prelude.{
  ℕ, ◌+◌, ◌-◌, ◌*◌, ◌^◌, ◌≤◌, ◌<◌, ◌≡◌, ◌⊎◌, inl, inr, refl, Option, none, some, List, [], ◌∷◌,
  false, Bool-cases, Option-cases, arith, length, size_max,
}
use nvidia_vaapi_driver.AppendableBuffer.{AppendableBuffer, Memalign, reserve_additional_buffer}
use nvidia_vaapi_driver.AppendableBuffer.Laws.{IsValid, IsAllocator, reserve_additional-Reserved}
use nvidia_vaapi_driver.Jpeg.Types.{JpegSlice, JpegContext}
use nvidia_vaapi_driver.Jpeg.{
  Usage, Collected, check_slices, is_refused, reserve_frame, reconstruct_jpeg, max_frame_size,
}
use nvidia_vaapi_driver.Jpeg.Frame.{AllChecked, total_size, check_slices-AllChecked}
use nvidia_vaapi_driver.Jpeg.Output.{Rebuilt, NotRebuilt, Keeps-self, write_frame-Outcome}

abbrev pub AllSized : List JpegSlice → Type 0
AllSized [] = Unit {0}
AllSized (s ∷ rest) = (s.slice_data_size < 2 ^ 32) × AllSized rest

total_size_bound :
    (slices : List JpegSlice) → AllSized slices → total_size slices ≤ length slices * (2 ^ 32 - 1)
unfolding total_size
total_size_bound [] sized = omega arith
total_size_bound (s ∷ rest) (small, sized) = omega (arith, small, total_size_bound rest sized)

pub refused-few :
    (jpeg : JpegContext) → is_refused jpeg ≡ false → jpeg.pic_params.num_components ≤ 4
refused-few jpeg h = ground arith

-- The sum that is reserved does not wrap around.
max_frame_size-eq-bound :
    (components n total : ℕ)
    → components ≤ 4
    → n ≤ 2 ^ 31
    → total ≤ n * (2 ^ 32 - 1)
    → (max_frame_size components n total ≡ 740 + components * 3 + n * 22 + total)
      × (max_frame_size components n total ≤ size_max)
max_frame_size-eq-bound components n total few many b = omega arith

abbrev pub none_yet : Collected
none_yet = record { total = 0; usage = record { dc = 0; ac = 0 } }

abbrev pub usage_of : Option Collected → Usage
usage_of none = none_yet.usage
usage_of (some t) = t.usage

-- The Huffman tables that the slices select.
abbrev pub used_tables : ℕ → JpegContext → ℕ → List JpegSlice → Usage
used_tables flag jpeg data_size slices =
    usage_of (check_slices flag jpeg.pic_params data_size slices none_yet)

module _ (memalign : Memalign) (alloc : IsAllocator memalign) (flag : ℕ) (jpeg : JpegContext)
    (memory : List ℕ) (data_size : ℕ) (output : AppendableBuffer) (v : IsValid output) where
  reserve_frame-Outcome :
      (first : JpegSlice) (rest : List JpegSlice) (t : Collected)
      → jpeg.pic_params.num_components ≤ 4
      → length (first ∷ rest) ≤ 2 ^ 31
      → AllSized (first ∷ rest)
      → AllChecked data_size (first ∷ rest)
      → t.total ≡ total_size (first ∷ rest)
      → Rebuilt jpeg t.usage
          (first ∷ rest)
          memory
          data_size
          output
          (reserve_frame memalign flag jpeg first rest memory output (some t))
        ⊎ NotRebuilt output (reserve_frame memalign flag jpeg first rest memory output (some t))
  unfolding reserve_frame
  reserve_frame-Outcome first rest t few many sized all total =
      let count = length (first ∷ rest) in
      let (e, small) =
        max_frame_size-eq-bound jpeg.pic_params.num_components count t.total few many
          (omega (arith, total, total_size_bound (first ∷ rest) sized)) in
      let n = max_frame_size jpeg.pic_params.num_components count t.total in
      let r = reserve_additional_buffer memalign output n in
      let k = reserve_additional-Reserved memalign alloc output n v small in
      elim (Bool-cases r.0) [
        | inr failed ↦ rw failed (inr (record { failure = refl; kept = k.keeps }))
        | inl done ↦ rw done (
            write_frame-Outcome jpeg memory data_size output few t.usage first rest all r.1 _ refl
              k.keeps (omega (arith, (k.room done).0, e, total)))
      ]

  -- reconstructJPEG on a valid output, with at most 2 ^ 31 slices of 32-bit sizes: it writes only
  -- inside the block of the output. A success puts the whole image behind what was in the output,
  -- answers its length, and reads only inside the slice data; a failure changes no byte in use.
  pub reconstruct-Outcome :
      (slices : List JpegSlice)
      → length slices ≤ 2 ^ 31
      → AllSized slices
      → Rebuilt jpeg
          (used_tables flag jpeg data_size slices)
          slices
          memory
          data_size
          output
          (reconstruct_jpeg memalign flag jpeg slices memory data_size output)
        ⊎ NotRebuilt output (reconstruct_jpeg memalign flag jpeg slices memory data_size output)
  unfolding reconstruct_jpeg reserve_frame
  reconstruct-Outcome [] many sized = inr (record { failure = refl; kept = Keeps-self output v })
  reconstruct-Outcome (first ∷ rest) many sized = elim (Bool-cases (is_refused jpeg)) [
    | inl refused ↦ rw refused (inr (record { failure = refl; kept = Keeps-self output v }))
    | inr fine ↦
        elim (Option-cases (check_slices flag jpeg.pic_params data_size (first ∷ rest) none_yet)) [
          | inl e ↦ rw (fine, e) (inr (record { failure = refl; kept = Keeps-self output v }))
          | inr (t, e) ↦
              let (total, all) =
                check_slices-AllChecked flag jpeg.pic_params data_size (first ∷ rest) none_yet t
                  (omega arith) e in
              rw (fine, e)
                (reserve_frame-Outcome first rest t (refused-few jpeg fine) many sized all
                  (omega (arith, total)))
        ]
  ]
