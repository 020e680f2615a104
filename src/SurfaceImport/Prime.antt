-- ===== src/SurfaceImport/Prime.antt =====
-- src/surface-import.c: what a valid imported surface promises, and the old PRIME descriptors.
use nvidia_vaapi_driver.Prelude.{
  ℕ, zero, suc, ◌+◌, ◌≤◌, ◌<◌, ◌≡◌, refl, Option, none, some, true, false, arith, inl, inr,
  Bool-cases, ◌∙◌, ap,
}
use native.Mathlib.Decide.{ℕ_discrete}
use nvidia_vaapi_driver.Prelude.Sums.{sum_below}
use nvidia_vaapi_driver.AppendableBuffer.{is_null}
use nvidia_vaapi_driver.SurfaceImport.{
  Constants, ImportedPlane, ImportedSurface, ExternalBuffers, max_imported_objects,
  max_imported_planes, max_legacy_surface_buffers, int_max, all_descriptors, legacy_planes,
  fill_legacy, legacy_header, legacy_refused, parse_prime_descriptor,
}

-- Each surface of an old PRIME descriptor has a buffer that fits a file descriptor.
abbrev pub HasBuffers : Option (ℕ → ℕ) → ℕ → Type 0
HasBuffers none n = ⊥
HasBuffers (some buffers) n = (i : ℕ) → i < n → buffers i ≤ int_max

-- What the rest of the driver may rely on.
pub record IsUsable (s : ImportedSurface) : Type 0 where
  pub some_objects : 0 < s.num_objects
  pub few_objects : s.num_objects ≤ max_imported_objects
  pub some_planes : 0 < s.num_planes
  pub few_planes : s.num_planes ≤ max_imported_planes
  pub backed : (i : ℕ) → i < s.num_objects → is_null (s.objects i).fd ≡ false
  pub inside : (i : ℕ) → i < s.num_planes → (s.planes i).object_index < s.num_objects
  pub sized : s.data_size ≡ sum_below s.num_objects (λ i. (s.objects i).size)
  pub buffered :
      s.legacy_prime ≡ true
      → HasBuffers s.legacy_buffers s.num_legacy_buffers
        × (0 < s.num_legacy_buffers)
        × (s.num_legacy_buffers ≤ max_legacy_surface_buffers)

all_descriptors_lem :
    (n i : ℕ) (buffers : ℕ → ℕ)
    → all_descriptors n i buffers ≡ true
    → (j : ℕ) → i ≤ j
    → j < i + n
    → buffers j ≤ int_max
unfolding all_descriptors
all_descriptors_lem zero i buffers e j lo hi = absurd (omega arith)
all_descriptors_lem (suc n) i buffers e j lo hi = elim (ℕ_discrete i j) [
  | yes q ↦ ground (arith, ap buffers q)
  | no ne ↦ all_descriptors_lem n (i + 1) buffers (ground arith) j (omega arith) (omega arith)
]

legacy_planes_before :
    (n i : ℕ) (ext : ExternalBuffers) (planes : ℕ → ImportedPlane) (j : ℕ)
    → j < i
    → legacy_planes n i ext planes j ≡ planes j
unfolding legacy_planes
legacy_planes_before zero i ext planes j lt = refl
legacy_planes_before (suc n) i ext planes j lt =
    legacy_planes_before n (i + 1) ext _ j (omega arith) ∙ ground arith

legacy_planes_lem :
    (n i : ℕ) (ext : ExternalBuffers) (planes : ℕ → ImportedPlane) (j : ℕ)
    → i ≤ j
    → j < i + n
    → (legacy_planes n i ext planes j).object_index ≡ 0
unfolding legacy_planes
legacy_planes_lem zero i ext planes j lo hi = absurd (omega arith)
legacy_planes_lem (suc n) i ext planes j lo hi = elim (ℕ_discrete i j) [
  | yes q ↦
      ap (λ (p : ImportedPlane). p.object_index)
        (legacy_planes_before n (i + 1) ext _ j (omega arith))
      ∙ ground arith
  | no ne ↦ legacy_planes_lem n (i + 1) ext _ j (ground arith) (omega arith)
]

-- The loop over the buffers ended and the surface is valid.
fill_legacy-IsUsable :
    (k : Constants) (ext : ExternalBuffers) (s : ImportedSurface) (buffers : Option (ℕ → ℕ))
    → s.valid ≡ false
    → s.legacy_buffers ≡ buffers
    → s.num_objects ≡ 1
    → s.data_size ≡ ext.data_size
    → (0 < s.num_planes) × (s.num_planes ≤ max_imported_planes)
    → (0 < s.num_legacy_buffers) × (s.num_legacy_buffers ≤ max_legacy_surface_buffers)
    → (fill_legacy k ext s buffers).valid ≡ true
    → IsUsable (fill_legacy k ext s buffers)
unfolding fill_legacy
fill_legacy-IsUsable k ext s none v q one size planes bufs h = cc
fill_legacy-IsUsable k ext s (some buffers) v q one size planes bufs h =
    elim (Bool-cases (all_descriptors s.num_legacy_buffers 0 buffers)) [
      | inr f ↦ absurd (ground arith)
      | inl all ↦ rw all (record {
        some_objects = omega arith;
        few_objects = omega arith;
        some_planes = planes.0;
        few_planes = planes.1;
        backed = λ i lt. ground arith;
        inside = λ i lt.
            let e = legacy_planes_lem s.num_planes 0 ext s.planes i (omega arith) (omega arith) in
            omega (arith, e);
        sized = (unfold sum_below in rw one (omega (arith, size)));
        buffered = λ _. (
          rw q (λ i lt.
              all_descriptors_lem s.num_legacy_buffers 0 buffers all i (omega arith) (omega arith)),
          bufs.0,
          bufs.1,
        );
      })
    ]

-- An old PRIME descriptor that is accepted.
pub parse_prime-IsUsable :
    (k : Constants) (ext : ExternalBuffers) (s : ImportedSurface)
    → s.valid ≡ false
    → (parse_prime_descriptor k ext s).valid ≡ true
    → IsUsable (parse_prime_descriptor k ext s)
unfolding parse_prime_descriptor
parse_prime-IsUsable k ext s v h = elim (Bool-cases (legacy_refused k ext)) [
  | inl r ↦ absurd (ground arith)
  | inr f ↦
      let within : (0 < ext.num_planes) × (ext.num_planes ≤ max_imported_planes) = ground arith in
      let buffers : (0 < ext.num_buffers) × (ext.num_buffers ≤ max_legacy_surface_buffers) =
        ground arith in
      let h' : (fill_legacy k ext (legacy_header k ext s) ext.buffers).valid ≡ true = rw f at h in
      rw f (
        fill_legacy-IsUsable k ext (legacy_header k ext s) ext.buffers v refl refl refl within
          buffers h')
]
