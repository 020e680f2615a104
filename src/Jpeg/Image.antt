-- ===== src/Jpeg/Image.antt =====
-- The image that reconstructJPEG appends to the bitstream, against the reader of the headers.
use nvidia_vaapi_driver.Prelude.{
  ℕ, ◌≡◌, ◌⊎◌, inl, inr, refl, some, List, [], ◌∷◌, ◌++◌, Bool, true, false, Bool-cases,
}
use nvidia_vaapi_driver.AppendableBuffer.{AppendableBuffer}
use nvidia_vaapi_driver.AppendableBuffer.Laws.{contents}
use nvidia_vaapi_driver.Jpeg.Types.{JpegSlice, JpegContext}
use nvidia_vaapi_driver.Jpeg.{ends_with_eoi, with_eoi, slice_data, copy_slices, all_same_header}
use nvidia_vaapi_driver.Jpeg.Reader.{Segment, read_headers}
use nvidia_vaapi_driver.Jpeg.Decode.{
  frame_header, scan_header, interval_in_force, asked_frame, asked_scan,
}
use nvidia_vaapi_driver.Jpeg.LaterScans.{AreScans}

ends_with_eoi-append : (xs : List ℕ) → ends_with_eoi (xs ++ 0xff ∷ 0xd9 ∷ []) ≡ true
unfolding ends_with_eoi
ends_with_eoi-append [] = refl
ends_with_eoi-append (a ∷ []) = refl
ends_with_eoi-append (a ∷ b ∷ []) = refl
ends_with_eoi-append (a ∷ b ∷ c ∷ xs) = ends_with_eoi-append (b ∷ c ∷ xs)

pub with_eoi-Ends : (xs : List ℕ) → ends_with_eoi (with_eoi xs) ≡ true
with_eoi-Ends xs = elim (Bool-cases (ends_with_eoi xs)) [
  | inl h ↦ rw (h, h) refl
  | inr h ↦ rw h (ends_with_eoi-append xs)
]

-- The data of the slices behind the first scan header: all of them where all have the same scan
-- header, else those of the first slice and then a scan for each of the others; then `last`.
abbrev pub SliceData : List ℕ → Bool → JpegSlice → List JpegSlice → List ℕ → List ℕ → Type 0
SliceData memory true first rest bytes last = bytes ≡ copy_slices memory (first ∷ rest) ++ last
SliceData memory false first rest bytes last =
    (more : List ℕ) × (bytes ≡ slice_data memory first ++ more)
    × AreScans memory first.restart_interval rest more last

-- An image behind what was in the output, as a decoder reads it: the headers up to the first scan,
-- then the slices; `last` is the end marker, or nothing.
pub record ReadsBack (jpeg : JpegContext) (first : JpegSlice) (rest : List JpegSlice)
    (memory : List ℕ) (output after : AppendableBuffer) : Type 0 where
  pub image : List ℕ
  pub stored : contents after ≡ contents output ++ image
  pub headers : List Segment
  pub behind_scan_header : List ℕ
  pub reads : read_headers image ≡ some (headers, behind_scan_header)
  pub frame : frame_header headers ≡ some (asked_frame jpeg.pic_params)
  pub scan : scan_header headers ≡ some (asked_scan first)
  pub interval : interval_in_force 0 headers ≡ first.restart_interval
  pub last : List ℕ
  pub last_is : (last ≡ []) ⊎ (last ≡ 0xff ∷ 0xd9 ∷ [])
  pub slices : SliceData memory (all_same_header first rest) first rest behind_scan_header last
  pub ends : ends_with_eoi image ≡ true
