-- ===== src/Jpeg/Decode.antt =====
-- What a decoder takes from the header segments of a JPEG image, after ISO/IEC 10918-1 (B.2.2, B.2.3
-- and B.2.4.4) and not after the driver, and what the parameters of libva ask for.
use nvidia_vaapi_driver.Prelude.{
  ℕ, zero, suc, ◌+◌, ◌*◌, ◌/◌, ◌%◌, ◌<◌, ◌≡◌, refl, Option, none, some, List, [], ◌∷◌, ◌++◌, ◌==◌,
  if◌then◌else◌, arith,
}
use Prim.Native.Nat.{bit_or}
use nvidia_vaapi_driver.Prelude.Bits.{bit_or_high}
use nvidia_vaapi_driver.Jpeg.Types.{JpegPicParams, JpegSlice}
use nvidia_vaapi_driver.Jpeg.Writers.{
  frame_components, sof0_payload, scan_components, sos_payload, write16be,
}
use nvidia_vaapi_driver.Jpeg.Reader.{Segment}

-- A component of the frame: its name, its sampling factors and its quantisation table.
pub record DecodedComponent : Type 0 where
  pub id : ℕ
  pub horizontal : ℕ
  pub vertical : ℕ
  pub table : ℕ

pub record DecodedFrame : Type 0 where
  pub precision : ℕ
  pub lines : ℕ
  pub samples : ℕ
  pub components : List DecodedComponent

-- A component of a scan: its name and its Huffman tables.
pub record DecodedSelector : Type 0 where
  pub id : ℕ
  pub dc : ℕ
  pub ac : ℕ

pub record DecodedScan : Type 0 where
  pub selectors : List DecodedSelector
  pub first_coefficient : ℕ
  pub last_coefficient : ℕ
  pub approximation : ℕ

abbrev add_component :
    DecodedComponent → Option (List DecodedComponent) → Option (List DecodedComponent)
add_component c none = none
add_component c (some more) = some (c ∷ more)

read_components : ℕ → List ℕ → Option (List DecodedComponent)
read_components zero [] = some []
read_components zero (a ∷ xs) = none
read_components (suc n) [] = none
read_components (suc n) (a ∷ []) = none
read_components (suc n) (a ∷ b ∷ []) = none
read_components (suc n) (a ∷ b ∷ c ∷ xs) =
    add_component (record { id = a; horizontal = b / 16; vertical = b % 16; table = c })
      (read_components n xs)

abbrev with_components : ℕ → ℕ → ℕ → Option (List DecodedComponent) → Option DecodedFrame
with_components precision lines samples none = none
with_components precision lines samples (some cs) =
    some (record { precision = precision; lines = lines; samples = samples; components = cs })

-- The payload of a frame header.
pub read_frame : List ℕ → Option DecodedFrame
read_frame [] = none
read_frame (p ∷ []) = none
read_frame (p ∷ a ∷ []) = none
read_frame (p ∷ a ∷ b ∷ []) = none
read_frame (p ∷ a ∷ b ∷ c ∷ []) = none
read_frame (p ∷ a ∷ b ∷ c ∷ d ∷ []) = none
read_frame (p ∷ a ∷ b ∷ c ∷ d ∷ n ∷ xs) =
    with_components p (a * 256 + b) (c * 256 + d) (read_components n xs)

abbrev add_selector : DecodedSelector → Option DecodedScan → Option DecodedScan
add_selector c none = none
add_selector c (some s) = some (record s { selectors = c ∷ s.selectors })

read_selectors : ℕ → List ℕ → Option DecodedScan
read_selectors zero [] = none
read_selectors zero (a ∷ []) = none
read_selectors zero (a ∷ b ∷ []) = none
read_selectors zero (a ∷ b ∷ c ∷ []) =
    some (record { selectors = []; first_coefficient = a; last_coefficient = b; approximation = c })
read_selectors zero (a ∷ b ∷ c ∷ d ∷ xs) = none
read_selectors (suc n) [] = none
read_selectors (suc n) (a ∷ []) = none
read_selectors (suc n) (a ∷ b ∷ xs) =
    add_selector (record { id = a; dc = b / 16; ac = b % 16 }) (read_selectors n xs)

-- The payload of a scan header.
pub read_scan : List ℕ → Option DecodedScan
read_scan [] = none
read_scan (n ∷ xs) = read_selectors n xs

-- The payload of the first segment with a marker.
unfoldable pub find_segment : ℕ → List Segment → Option (List ℕ)
find_segment marker [] = none
find_segment marker (s ∷ more) =
    if s.marker == marker then some s.payload else find_segment marker more

abbrev pub frame_in : Option (List ℕ) → Option DecodedFrame
frame_in none = none
frame_in (some xs) = read_frame xs

abbrev pub frame_header : List Segment → Option DecodedFrame
frame_header headers = frame_in (find_segment 0xc0 headers)

abbrev pub scan_in : Option (List ℕ) → Option DecodedScan
scan_in none = none
scan_in (some xs) = read_scan xs

abbrev pub scan_header : List Segment → Option DecodedScan
scan_header headers = scan_in (find_segment 0xda headers)

pub read_interval : List ℕ → ℕ
read_interval [] = 0
read_interval (a ∷ []) = 0
read_interval (a ∷ b ∷ xs) = a * 256 + b

abbrev pub interval_in : ℕ → Option (List ℕ) → ℕ
interval_in before none = before
interval_in before (some xs) = read_interval xs

-- The restart interval in force behind these segments, given that before them.
abbrev pub interval_in_force : ℕ → List Segment → ℕ
interval_in_force before headers = interval_in before (find_segment 0xdd headers)

-- What the parameters of the picture ask for.
asked_components : ℕ → ℕ → JpegPicParams → List DecodedComponent
asked_components zero i pic = []
asked_components (suc n) i pic =
    let c = pic.components i in
    record {
      id = c.component_id;
      horizontal = c.h_sampling_factor;
      vertical = c.v_sampling_factor;
      table = c.quantiser_table_selector;
    }
    ∷ asked_components n (i + 1) pic

-- A frame of 8 bits a sample.
pub asked_frame : JpegPicParams → DecodedFrame
asked_frame pic = record {
  precision = 8;
  lines = pic.picture_height;
  samples = pic.picture_width;
  components = asked_components pic.num_components 0 pic;
}

asked_selectors : ℕ → ℕ → JpegSlice → List DecodedSelector
asked_selectors zero i slice = []
asked_selectors (suc n) i slice =
    let c = slice.components i in
    record { id = c.component_selector; dc = c.dc_table_selector; ac = c.ac_table_selector }
    ∷ asked_selectors n (i + 1) slice

-- A scan of all coefficients.
pub asked_scan : JpegSlice → DecodedScan
asked_scan slice = record {
  selectors = asked_selectors slice.num_components 0 slice;
  first_coefficient = 0;
  last_coefficient = 63;
  approximation = 0;
}

-- The sizes of the fields: 16 bits for the dimensions, 4 bits for the sampling factors in use.
pub record IsTyped (pic : JpegPicParams) : Type 0 where
  pub height : pic.picture_height < 65536
  pub width : pic.picture_width < 65536
  pub factors :
      (i : ℕ)
      → i < pic.num_components
      → ((pic.components i).h_sampling_factor < 16) × ((pic.components i).v_sampling_factor < 16)

-- The sizes of the fields of a slice: 16 bits for the interval, 4 bits for the tables in use.
pub record IsTypedSlice (slice : JpegSlice) : Type 0 where
  pub interval : slice.restart_interval < 65536
  pub tables :
      (i : ℕ)
      → i < slice.num_components
      → ((slice.components i).dc_table_selector < 16)
        × ((slice.components i).ac_table_selector < 16)

packed :
    (h v : ℕ)
    → h < 16
    → v < 16
    → (bit_or (h * 16) v % 256 / 16 ≡ h) × (bit_or (h * 16) v % 256 % 16 ≡ v)
packed h v p q =
    let e : bit_or (h * 16) v ≡ h * 16 + v = bit_or_high 4 h v (omega arith) in
    (omega (arith, e), omega (arith, e))

read_components-frame_components :
    (n i : ℕ) (pic : JpegPicParams)
    → ((k : ℕ)
        → k < i + n
        → ((pic.components k).h_sampling_factor < 16) × ((pic.components k).v_sampling_factor < 16))
    → read_components n (frame_components n i pic) ≡ some (asked_components n i pic)
unfolding read_components frame_components asked_components
read_components-frame_components zero i pic f = refl
read_components-frame_components (suc n) i pic f =
    let c = pic.components i in
    let small = f i (omega arith) in
    let e = packed c.h_sampling_factor c.v_sampling_factor small.0 small.1 in
    let ih = read_components-frame_components n (i + 1) pic (λ k p. f k (omega arith)) in
    rw (e.0, e.1, ih) refl

-- The frame header that is written has the dimensions and the components of the picture.
pub read_frame-sof0_payload :
    (pic : JpegPicParams) → IsTyped pic → read_frame (sof0_payload pic) ≡ some (asked_frame pic)
unfolding read_frame asked_frame
read_frame-sof0_payload pic t =
    let h : pic.picture_height / 256 % 256 * 256 + pic.picture_height % 256 ≡ pic.picture_height =
      omega (arith, t.height) in
    let w : pic.picture_width / 256 % 256 * 256 + pic.picture_width % 256 ≡ pic.picture_width =
      omega (arith, t.width) in
    rw
      (
        h,
        w,
        read_components-frame_components pic.num_components 0 pic
            (λ k p. t.factors k (omega arith)),
      )
      refl

read_selectors-scan_components :
    (n i : ℕ) (slice : JpegSlice)
    → ((k : ℕ)
        → k < i + n
        → ((slice.components k).dc_table_selector < 16)
          × ((slice.components k).ac_table_selector < 16))
    → read_selectors n (scan_components n i slice ++ 0 ∷ 63 ∷ 0 ∷ [])
      ≡ some (record {
        selectors = asked_selectors n i slice;
        first_coefficient = 0;
        last_coefficient = 63;
        approximation = 0;
      })
unfolding read_selectors scan_components asked_selectors
read_selectors-scan_components zero i slice f = refl
read_selectors-scan_components (suc n) i slice f =
    let c = slice.components i in
    let small = f i (omega arith) in
    let e = packed c.dc_table_selector c.ac_table_selector small.0 small.1 in
    let ih = read_selectors-scan_components n (i + 1) slice (λ k p. f k (omega arith)) in
    rw (e.0, e.1, ih) refl

-- The scan header that is written has the components and the tables of the slice.
pub read_scan-sos_payload :
    (slice : JpegSlice)
    → IsTypedSlice slice
    → read_scan (sos_payload slice) ≡ some (asked_scan slice)
unfolding read_scan asked_scan
read_scan-sos_payload slice t =
    read_selectors-scan_components slice.num_components 0 slice (λ k p. t.tables k (omega arith))

pub read_interval-write16be :
    (interval : ℕ) → interval < 65536 → read_interval (write16be interval) ≡ interval
unfolding read_interval
read_interval-write16be interval h = omega (arith, h)
