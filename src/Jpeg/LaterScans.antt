-- ===== src/Jpeg/LaterScans.antt =====
-- The scans behind the first in an image that src/jpeg.c puts together, each behind its own headers.
use nvidia_vaapi_driver.Prelude.{
  ℕ, ◌≤◌, ◌≡◌, inl, inr, refl, ap, ◌∙◌, sym, some, List, [], ◌∷◌, ◌++◌, Bool, true, false, ◌&&◌,
  not, ◌==◌, if◌then◌else◌, Bool-cases, append_assoc, append-nil,
}
use nvidia_vaapi_driver.Jpeg.Types.{JpegSlice}
use nvidia_vaapi_driver.Jpeg.Writers.{write_dri, write_sos}
use nvidia_vaapi_driver.Jpeg.{slice_data, write_scans}
use nvidia_vaapi_driver.Jpeg.Reader.{Segment, written, all_written}
use nvidia_vaapi_driver.Jpeg.Segments.{dri_segment, sos_segment, write_sos-IsScan}
use nvidia_vaapi_driver.Jpeg.Frame.{AllChecked}
use nvidia_vaapi_driver.Jpeg.Headers.{SameInterval}
use nvidia_vaapi_driver.Jpeg.Decode.{
  find_segment, scan_header, interval_in_force, asked_scan, IsTypedSlice, read_scan-sos_payload,
  read_interval-write16be,
}

-- A scan: segments, then the data of its slice. The scan header is that of the slice, and an interval
-- of the slice that is not 0 is in force, `before` being that in force before the segments.
pub record IsScan (memory : List ℕ) (before : ℕ) (s : JpegSlice) (bytes more : List ℕ)
    : Type 0 where
  pub segments : List Segment
  pub laid_out : bytes ≡ all_written segments ++ (slice_data memory s ++ more)
  pub header : scan_header segments ≡ some (asked_scan s)
  pub interval :
      (s.restart_interval == 0) ≡ false → interval_in_force before segments ≡ s.restart_interval

-- One scan for each slice, in order, and `last` behind them.
abbrev pub AreScans : List ℕ → ℕ → List JpegSlice → List ℕ → List ℕ → Type 0
AreScans memory before [] bytes last = bytes ≡ last
AreScans memory before (s ∷ rest) bytes last =
    (more : List ℕ) × IsScan memory before s bytes more × AreScans memory before rest more last

abbrev pub AllTyped : List JpegSlice → Type 0
AllTyped [] = Unit {0}
AllTyped (s ∷ rest) = IsTypedSlice s × AllTyped rest

-- The headers of a slice behind the first; `same` tells that all intervals are the same.
abbrev headers_of : Bool → JpegSlice → List Segment
headers_of same s =
    (if not same && not (s.restart_interval == 0) then dri_segment s.restart_interval ∷ [] else [])
    ++ sos_segment s ∷ []

headers_of-written :
    (same : Bool) (s : JpegSlice)
    → s.num_components ≤ 4
    → (if not same && not (s.restart_interval == 0) then write_dri s.restart_interval else [])
        ++ write_sos s
      ≡ all_written (headers_of same s)
unfolding all_written
headers_of-written same s few = elim (Bool-cases (not same && not (s.restart_interval == 0))) [
  | inl h ↦
      rw (h, (write_sos-IsScan s few).0)
        (ap (λ l. write_dri s.restart_interval ++ l) (sym (append-nil (written (sos_segment s)))))
  | inr h ↦ rw (h, (write_sos-IsScan s few).0) (sym (append-nil (written (sos_segment s))))
]

headers_of-scan :
    (same : Bool) (s : JpegSlice)
    → IsTypedSlice s
    → scan_header (headers_of same s) ≡ some (asked_scan s)
unfolding find_segment
headers_of-scan same s t = elim (Bool-cases (not same && not (s.restart_interval == 0))) [
  | inl h ↦ rw h (read_scan-sos_payload s t)
  | inr h ↦ rw h (read_scan-sos_payload s t)
]

headers_of-interval :
    (same : Bool) (s : JpegSlice) (before : ℕ)
    → IsTypedSlice s
    → (same ≡ true → s.restart_interval ≡ before)
    → (s.restart_interval == 0) ≡ false
    → interval_in_force before (headers_of same s) ≡ s.restart_interval
unfolding find_segment
headers_of-interval true s before t e h = sym (e refl)
headers_of-interval false s before t e h =
    rw h (read_interval-write16be s.restart_interval t.interval)

pub write_scans-AreScans :
    (memory : List ℕ) (same : Bool) (first : JpegSlice) (rest : List JpegSlice) (data_size : ℕ)
    (last : List ℕ)
    → (same ≡ true → SameInterval first rest)
    → AllChecked data_size rest
    → AllTyped rest
    → AreScans memory first.restart_interval rest (write_scans same memory rest ++ last) last
unfolding write_scans
write_scans-AreScans memory same first [] data_size last e all typed = refl
write_scans-AreScans memory same first (s ∷ rest) data_size last e (c, all) (t, typed) = (
  write_scans same memory rest ++ last,
  record {
    segments = headers_of same s;
    laid_out =
        ap (λ l. l ++ slice_data memory s ++ write_scans same memory rest ++ last)
          (headers_of-written same s c.few)
        ∙ simp append_assoc;
    header = headers_of-scan same s t;
    interval = headers_of-interval same s first.restart_interval t (λ h. (e h).0);
  },
  write_scans-AreScans memory same first rest data_size last (λ h. (e h).1) all typed,
)
