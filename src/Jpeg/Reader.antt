-- ===== src/Jpeg/Reader.antt =====
-- A reader of the headers of a JPEG image, after ISO/IEC 10918-1 and not after the driver: marker
-- segments with their length in two bytes, up to the first start of scan.
use nvidia_vaapi_driver.Prelude.{
  ℕ, zero, suc, ◌+◌, ◌-◌, ◌*◌, ◌/◌, ◌%◌, ◌≤◌, ◌<◌, ◌≡◌, refl, ap, sym, ◌∙◌, Option, none, some,
  List, [], ◌∷◌, ◌++◌, true, false, ◌&&◌, ◌||◌, not, ltb, ◌==◌, if◌then◌else◌, arith, length,
  length-append, take, drop, take-append_left, drop-append_left, append_assoc,
}
use nvidia_vaapi_driver.Jpeg.Writers.{write16be}

pub record Segment : Type 0 where
  pub marker : ℕ
  pub payload : List ℕ

abbrev pub Headers : Type 0
Headers = Option (List Segment × List ℕ)

abbrev pub behind : Segment → Headers → Headers
behind s none = none
behind s (some (more, rest)) = some (s ∷ more, rest)

-- The segments up to the start of scan, and what stands behind it.
pub read_segments : ℕ → List ℕ → Headers
read_segments zero xs = none
read_segments (suc fuel) [] = none
read_segments (suc fuel) (a ∷ []) = none
read_segments (suc fuel) (a ∷ m ∷ []) = none
read_segments (suc fuel) (a ∷ m ∷ hi ∷ []) = none
read_segments (suc fuel) (a ∷ m ∷ hi ∷ lo ∷ xs) =
    let n = hi * 256 + lo - 2 in
    let s : Segment = record { marker = m; payload = take n xs } in
    let next = behind s (read_segments fuel (drop n xs)) in
    if not (a == 0xff) || ltb (length xs) n
    then none
    else if m == 0xda
    then some (s ∷ [], drop n xs)
    else next

-- The start of the image, then the segments.
pub read_headers : List ℕ → Headers
read_headers [] = none
read_headers (a ∷ []) = none
read_headers (a ∷ b ∷ xs) = if a == 0xff && b == 0xd8 then read_segments (length xs) xs else none

-- A segment as it is to be written.
abbrev pub written : Segment → List ℕ
written s = 0xff ∷ s.marker ∷ write16be (length s.payload + 2) ++ s.payload

unfoldable pub all_written : List Segment → List ℕ
all_written [] = []
all_written (s ∷ more) = written s ++ all_written more

-- The reader gives a written segment back, and goes on behind it.
read-written :
    (fuel : ℕ) (s : Segment) (rest : List ℕ)
    → length s.payload + 2 < 65536
    → read_segments (suc fuel) (written s ++ rest)
      ≡ (if s.marker == 0xda then some (s ∷ [], rest) else behind s (read_segments fuel rest))
unfolding read_segments
read-written fuel s rest small =
    let k = length s.payload + 2 in
    let n : k / 256 % 256 * 256 + k % 256 - 2 ≡ length s.payload = omega arith in
    let fits : ltb (length (s.payload ++ rest)) (length s.payload) ≡ false =
      ground (arith, length-append s.payload rest) in
    rw (
      n,
      fits,
      take-append_left (length s.payload) s.payload rest refl,
      drop-append_left (length s.payload) s.payload rest refl,
    )

-- Segments that the reader takes for headers, none of them the start of scan.
pub record IsHeader (s : Segment) : Type 0 where
  pub short : length s.payload + 2 < 65536
  pub no_scan : (s.marker == 0xda) ≡ false

abbrev pub AllHeaders : List Segment → Type 0
AllHeaders [] = Unit {0}
AllHeaders (s ∷ more) = IsHeader s × AllHeaders more

pub AllHeaders-append :
    (xs ys : List Segment) → AllHeaders xs → AllHeaders ys → AllHeaders (xs ++ ys)
AllHeaders-append [] ys a b = b
AllHeaders-append (x ∷ xs) ys (h, a) b = (h, AllHeaders-append xs ys a b)

pub all_written-append :
    (xs ys : List Segment) → all_written (xs ++ ys) ≡ all_written xs ++ all_written ys
unfolding all_written
all_written-append [] ys = refl
all_written-append (x ∷ xs) ys =
    ap (λ l. written x ++ l) (all_written-append xs ys)
    ∙ sym (append_assoc (written x) (all_written xs) (all_written ys))

-- With enough fuel the reader gives the headers and the start of scan back.
read-all_written :
    (fuel : ℕ) (segs : List Segment) (scan : Segment) (rest : List ℕ)
    → length segs < fuel
    → AllHeaders segs
    → length scan.payload + 2 < 65536
    → scan.marker ≡ 0xda
    → read_segments fuel (all_written segs ++ written scan ++ rest) ≡ some (segs ++ scan ∷ [], rest)
unfolding all_written
read-all_written zero segs scan rest f all small m = absurd (omega arith)
read-all_written (suc fuel) [] scan rest f all small m =
    let e : (scan.marker == 0xda) ≡ true = ground arith in
    read-written fuel scan rest small ∙ rw e refl
read-all_written (suc fuel) (s ∷ more) scan rest f (h, all) small m =
    let ih = read-all_written fuel more scan rest (omega arith) all small m in
    let tail = all_written more ++ written scan ++ rest in
    let w = all_written more in
    let e : written s ++ w ++ written scan ++ rest ≡ written s ++ tail =
      ap (λ l. l ++ rest) (append_assoc (written s) w (written scan))
      ∙ append_assoc (written s) (w ++ written scan) rest in
    ap (read_segments (suc fuel)) e ∙ read-written fuel s tail h.short ∙ rw (h.no_scan, ih) refl

length-all_written : (segs : List Segment) → length segs * 4 ≤ length (all_written segs)
unfolding all_written
length-all_written [] = omega arith
length-all_written (s ∷ more) =
    omega (arith, length-append (written s) (all_written more), length-all_written more)

pub read_headers-written :
    (segs : List Segment) (scan : Segment) (rest : List ℕ)
    → AllHeaders segs
    → length scan.payload + 2 < 65536
    → scan.marker ≡ 0xda
    → read_headers (0xff ∷ 0xd8 ∷ (all_written segs ++ written scan ++ rest))
      ≡ some (segs ++ scan ∷ [], rest)
unfolding read_headers
read_headers-written segs scan rest all small m =
    let w = all_written segs in
    read-all_written (length (w ++ written scan ++ rest)) segs scan rest
      (omega (
        arith,
        length-all_written segs,
        length-append (w ++ written scan) rest,
        length-append w (written scan),
      ))
      all small m
