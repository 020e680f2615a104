-- ===== src/SurfaceImport/Selection.antt =====
-- src/surface-import.c: the attributes of a whole call, and the surfaces that it makes.
use nvidia_vaapi_driver.Prelude.{
  ℕ, ◌≤◌, ◌<◌, ◌≡◌, ◌↔◌, ◌⊎◌, ◌&&◌, ◌||◌, ltb, refl, Option, none, some, Bool, true, false, not,
  leb, ◌==◌, if◌then◌else◌, arith, inl, inr, Bool-cases, List, [], ◌∷◌,
}
use Prim.Native.Nat.{bit_and}
use nvidia_vaapi_driver.SurfaceImport.{
  Constants, integer, pointer, Attribute, memory_type, pixel_format, external_descriptor,
  Descriptor, ImportedObject, ImportedSurface, update, int_max, imported_surface_init,
  read_attribute, read_attributes, parse_descriptor, parse_surface_import_attributes, legacy_buffer,
  select_index, imported_surface_select_index,
}
use nvidia_vaapi_driver.SurfaceImport.Prime.{IsUsable, HasBuffers, parse_prime-IsUsable}
use nvidia_vaapi_driver.SurfaceImport.Prime2.{parse_prime2-IsUsable}

-- A surface that no descriptor was read into.
record IsBlank (s : ImportedSurface) : Type 0 where
  blank_valid : s.valid ≡ false
  blank_legacy : s.legacy_prime ≡ false
  blank_size : s.data_size ≡ 0

read_attribute-IsBlank :
    (a : Attribute) (d : Option Descriptor) (s : ImportedSurface)
    → IsBlank s
    → IsBlank (read_attribute a (d, s)).1
read_attribute-IsBlank (memory_type (integer i)) d s b = record {
  blank_valid = b.blank_valid;
  blank_legacy = b.blank_legacy;
  blank_size = b.blank_size;
}
read_attribute-IsBlank (pixel_format (integer i)) d s b = record {
  blank_valid = b.blank_valid;
  blank_legacy = b.blank_legacy;
  blank_size = b.blank_size;
}
read_attribute-IsBlank (external_descriptor (pointer p)) d s b = b
read_attribute-IsBlank _ d s b = b

read_attributes-IsBlank :
    (attribs : List Attribute) (d : Option Descriptor) (s : ImportedSurface)
    → IsBlank s
    → IsBlank (read_attributes attribs (d, s)).1
unfolding read_attributes
read_attributes-IsBlank [] d s b = b
read_attributes-IsBlank (a ∷ rest) d s b =
    let (d', s') = read_attribute a (d, s) in
    read_attributes-IsBlank rest d' s' (read_attribute-IsBlank a d s b)

parse_descriptor-IsUsable :
    (k : Constants) (d : Option Descriptor) (s : ImportedSurface)
    → IsBlank s
    → (parse_descriptor k (d, s)).valid ≡ true
    → IsUsable (parse_descriptor k (d, s))
unfolding parse_descriptor
parse_descriptor-IsUsable k none s b h = absurd (ground (arith, b.blank_valid))
parse_descriptor-IsUsable k (some d) s b h =
    let s' : ImportedSurface = record s { requested = true } in
    elim (Bool-cases (not (bit_and s.memory_type k.mem_type_drm_prime_2 == 0))) [
      | inl second ↦ rw second (
          parse_prime2-IsUsable d.prime s' b.blank_valid b.blank_legacy b.blank_size
            (rw second at h))
      | inr f ↦ elim (Bool-cases (not (bit_and s.memory_type k.mem_type_drm_prime == 0))) [
        | inl first ↦
            rw (f, first) (parse_prime-IsUsable k d.external s' b.blank_valid (rw (f, first) at h))
        | inr g ↦ absurd (ground (arith, b.blank_valid))
      ]
    ]

-- A surface that parseSurfaceImportAttributes calls valid has one to four objects with open file
-- descriptors and one to four planes, each in one of those objects; its size is the sum of theirs
-- without wrap-around; with an old PRIME descriptor it has 1 to 1024 buffers, each a value that
-- fits a file descriptor.
pub parse-IsUsable :
    (k : Constants) (attribs : List Attribute)
    → let s = parse_surface_import_attributes k (some attribs) in s.valid ≡ true → IsUsable s
unfolding parse_surface_import_attributes
parse-IsUsable k attribs h =
    let b = read_attributes-IsBlank attribs none (imported_surface_init k) (
      unfold imported_surface_init in
      record { blank_valid = refl; blank_legacy = refl; blank_size = refl }) in
    let r = read_attributes attribs (none, imported_surface_init k) in
    parse_descriptor-IsUsable k r.0 r.1 b h

abbrev expected_surfaces : ImportedSurface → ℕ
expected_surfaces s = if s.legacy_prime then s.num_legacy_buffers else 1

-- The surface of that index: with an old PRIME descriptor its first object has a buffer of its own.
abbrev pub picked : ImportedSurface → ℕ → ImportedSurface
picked s index = record s {
  objects = λ j.
      if s.legacy_prime && 0 == j
      then record (s.objects 0) { fd = some (legacy_buffer s.legacy_buffers index) }
      else s.objects j;
}

-- What importedSurfaceSelectIndex makes of a valid surface.
pub record Selected (s : ImportedSurface) (index n : ℕ) (r : Bool × Option ImportedSurface)
    : Type 0 where
  pub accepts : (r.0 ≡ true) ↔ ((index < n) × (n ≡ expected_surfaces s))
  pub copies : r.0 ≡ true → r.1 ≡ some (picked s index)
  pub refuses : r.0 ≡ false → (r.1 ≡ none) ⊎ (r.1 ≡ some s)

-- What stands in the copy, whatever the tests say.
copy-picked :
    (s : ImportedSurface) (x : ImportedObject) (refused legacy single bad : Bool)
    → let r : Bool × Option ImportedSurface =
        if refused
        then (false, none)
        else if not legacy
        then (single, some s)
        else if bad
        then (false, some s)
        else (true, some (record s { objects = update s.objects 0 x })) in
      (r.0 ≡ true
        → r.1 ≡ some (record s { objects = λ j. if legacy && 0 == j then x else s.objects j }))
      × (r.0 ≡ false → (r.1 ≡ none) ⊎ (r.1 ≡ some s))
copy-picked s x true legacy single bad = (λ q. cc, λ q. inl refl)
copy-picked s x false false single bad = (λ q. refl, λ q. inr refl)
copy-picked s x false true single true = (λ q. cc, λ q. inr refl)
copy-picked s x false true single false = (λ q. refl, λ q. cc)

legacy_buffer-le :
    (buffers : Option (ℕ → ℕ)) (n i : ℕ)
    → HasBuffers buffers n
    → i < n
    → legacy_buffer buffers i ≤ int_max
legacy_buffer-le none n i h lt = elim h [ ]
legacy_buffer-le (some buffers) n i h lt = h i lt

module _ (s : ImportedSurface) (index n : ℕ) (v : s.valid ≡ true) (u : IsUsable s) where
  written :
      ((select_index s index n).0 ≡ true → (select_index s index n).1 ≡ some (picked s index))
      × ((select_index s index n).0 ≡ false
          → ((select_index s index n).1 ≡ none) ⊎ ((select_index s index n).1 ≡ some s))
  unfolding select_index
  written =
      copy-picked s (record (s.objects 0) { fd = some (legacy_buffer s.legacy_buffers index) })
        (not s.valid || leb n index) s.legacy_prime (n == 1)
        (not (s.num_legacy_buffers == n) || ltb int_max (legacy_buffer s.legacy_buffers index))

  select_in_range : index < n → Selected s index n (select_index s index n)
  unfolding select_index
  select_in_range lt =
      let room : leb n index ≡ false = ground arith in
      elim (Bool-cases s.legacy_prime) [
        | inr l ↦ record {
          accepts = (λ q. ground arith, λ q. ground arith);
          copies = written.0;
          refuses = written.1;
        }
        | inl l ↦
            let bound = λ (le : index < s.num_legacy_buffers).
              legacy_buffer-le s.legacy_buffers s.num_legacy_buffers index (u.buffered l).0 le in
            record {
              accepts = (λ q. ground arith, λ q. ground arith);
              copies = written.0;
              refuses = written.1;
            }
      ]

  select_out_of_range : leb n index ≡ true → Selected s index n (select_index s index n)
  unfolding select_index
  select_out_of_range out = record {
    accepts = (λ q. ground arith, λ q. ground arith);
    copies = written.0;
    refuses = written.1;
  }

  -- For a surface that is valid and usable importedSurfaceSelectIndex answers true exactly for an
  -- index below the number of surfaces, where that number is one, or with an old PRIME descriptor
  -- the number of its buffers. It then has written the whole surface to the copy, but that with an
  -- old PRIME descriptor the file descriptor of its first object is the buffer of that index; where
  -- it answers false it has written nothing or the surface as it is.
  pub select-Selected : Selected s index n (imported_surface_select_index (some s) index n true)
  unfolding imported_surface_select_index
  select-Selected = elim (Bool-cases (leb n index)) [
    | inl out ↦ select_out_of_range out
    | inr within ↦ select_in_range (ground arith)
  ]
