-- ===== src/PictureOwners/Ownership.antt =====
-- pictureIdxFromSurfaceId and releaseSurfacePictureIndex keep the links.
use nvidia_vaapi_driver.Prelude.{
  ℕ, ◌^◌, ◌<◌, ◌≡◌, ◌≢◌, refl, Option, none, some, true, false, ◌&&◌, ltb, ◌==◌, arith,
  if◌then◌else◌, sym, ap, ◌∙◌,
}
use Prim.Native.Nat.{bit_and, bit_or}
use nvidia_vaapi_driver.Prelude.Bits.{complement}
use nvidia_vaapi_driver.PictureOwners.{
  Surface, Driver, update, points_to, is_foreign, still_owned, mark_reference, give_up_index,
  is_gone, va_invalid_id, reference_index, found_reference, picture_idx_from_surface_id, detach,
  disown, release_from, release_surface_picture_index,
}
use nvidia_vaapi_driver.Codec.PictureIndex.{max_decode_surfaces}
use nvidia_vaapi_driver.PictureOwners.Links.{
  Serving, IsLinked, Unowned, points_to_self, some-inj, detach-IsLinked, fewer-IsLinked, if-Either,
}

mark_reference-IsLinked : (d : Driver) (c i : ℕ) → IsLinked d → IsLinked (mark_reference d c i)
mark_reference-IsLinked d c i l =
    let x = d.contexts c in
    fewer-IsLinked d c
      (record x { building_reference_mask = bit_or x.building_reference_mask (2 ^ i) })
      (record { id = refl; destroying = refl; mutex = refl; current = omega arith }) l (λ j t o. o)

pub reference_index-IsLinked :
    (d : Driver) (c s : ℕ) (o : Option ℕ) → IsLinked d → IsLinked (reference_index d c s o).1
reference_index-IsLinked d c s none l = l
reference_index-IsLinked d c s (some i) l =
    let P : Option ℕ × Driver → Type 0 = λ r. IsLinked r.1 in
    let marked = if (d.contexts c).is_av1 then d else mark_reference d c i in
    if-Either P (is_foreign d c s i) (none, d)
      (if still_owned d c s i then (some i, marked) else (none, d)) (λ h. l)
      (λ h.
        if-Either P (still_owned d c s i) (some i, marked) (none, d)
          (λ k.
            if-Either IsLinked (d.contexts c).is_av1 d (mark_reference d c i) (λ a. l)
              (λ a. mark_reference-IsLinked d c i l))
          (λ k. l))

found_reference-IsLinked :
    (d : Driver) (c : ℕ) (o : Option ℕ) → IsLinked d → IsLinked (found_reference d c o).1
found_reference-IsLinked d c none l = l
found_reference-IsLinked d c (some s) l =
    reference_index-IsLinked d c s (d.surfaces s).picture_index l

pub picture_idx-IsLinked :
    (d : Driver) (c : Option ℕ) (id : ℕ)
    → IsLinked d
    → IsLinked (picture_idx_from_surface_id d c id).1
unfolding picture_idx_from_surface_id
picture_idx-IsLinked d none id l = l
picture_idx-IsLinked d (some c) id l =
    let P : Option ℕ × Driver → Type 0 = λ r. IsLinked r.1 in
    if-Either P (id == va_invalid_id) (none, d) (found_reference d c (d.surface_of_id id)) (λ h. l)
      (λ h. found_reference-IsLinked d c (d.surface_of_id id) l)

update-less : (f : ℕ → Option ℕ) (i j t : ℕ) → update f i none j ≡ some t → f j ≡ some t
update-less f i j t o = ground arith

give_up_index-IsLinked : (d : Driver) (c i : ℕ) → IsLinked d → IsLinked (give_up_index d c i)
give_up_index-IsLinked d c i l =
    let x = d.contexts c in
    fewer-IsLinked d c
      (record x {
        owners = update x.owners i none;
        active_reference_mask = bit_and x.active_reference_mask (complement 32 (2 ^ i));
        building_reference_mask = bit_and x.building_reference_mask (complement 32 (2 ^ i));
      })
      (record { id = refl; destroying = refl; mutex = refl; current = omega arith }) l
      (update-less x.owners i)

disown-IsLinked : (d : Driver) (c s : ℕ) (o : Option ℕ) → IsLinked d → IsLinked (disown d c s o)
disown-IsLinked d c s none l = l
disown-IsLinked d c s (some i) l =
    if-Either IsLinked (ltb i max_decode_surfaces && points_to ((d.contexts c).owners i) s)
      (give_up_index d c i) d (λ h. give_up_index-IsLinked d c i l) (λ h. l)

-- A surface that is in no context is no owner.
unlinked : (d : Driver) (s : ℕ) → IsLinked d → (d.surfaces s).context ≡ none → Unowned d s
unlinked d s l h c i v o = let k = l c i s v o in let e = k.context in cc

Serving-is_gone :
    (d : Driver) (c s : ℕ)
    → Serving d c
    → (d.surfaces s).context_id ≡ (d.contexts c).id
    → is_gone d c s ≡ false
Serving-is_gone d c s v e = ground (arith, v.live, v.staying, v.locked)

-- Nor is one whose context is gone.
gone-Unowned :
    (d : Driver) (c s : ℕ)
    → IsLinked d
    → (d.surfaces s).context ≡ some c
    → is_gone d c s ≡ true
    → Unowned d s
gone-Unowned d c s l h g e i v o =
    let k = l e i s v o in
    let same : e ≡ c = some-inj e c (sym k.context ∙ h) in
    let f : is_gone d e s ≡ false = Serving-is_gone d e s v k.context_id in
    let f' : is_gone d c s ≡ false = rw same at f in cc

disown-surfaces : (d : Driver) (c s : ℕ) (o : Option ℕ) → (disown d c s o).surfaces ≡ d.surfaces
disown-surfaces d c s none = refl
disown-surfaces d c s (some i) =
    if-Either (λ (e : Driver). e.surfaces ≡ d.surfaces)
      (ltb i max_decode_surfaces && points_to ((d.contexts c).owners i) s) (give_up_index d c i) d
      (λ h. refl) (λ h. refl)

disown-not_owner :
    (d : Driver) (c s i : ℕ) → i < 32 → ((disown d c s (some i)).contexts c).owners i ≢ some s
disown-not_owner d c s i b =
    if-Either (λ (e : Driver). (e.contexts c).owners i ≢ some s)
      (ltb i max_decode_surfaces && points_to ((d.contexts c).owners i) s) (give_up_index d c i) d
      (λ h o. ground arith)
      (λ h o. let p = points_to_self ((d.contexts c).owners i) s o in ground (arith, p))

disowned-Unowned :
    (d : Driver) (c s : ℕ)
    → IsLinked d
    → (d.surfaces s).context ≡ some c
    → Unowned (disown d c s (d.surfaces s).picture_index) s
disowned-Unowned d c s l h e i v o =
    let w = disown d c s (d.surfaces s).picture_index in
    let u : w.surfaces ≡ d.surfaces = disown-surfaces d c s (d.surfaces s).picture_index in
    let k = disown-IsLinked d c s (d.surfaces s).picture_index l e i s v o in
    let same : e ≡ c =
      some-inj e c (sym k.context ∙ ap (λ (f : ℕ → Surface). (f s).context) u ∙ h) in
    let index : (d.surfaces s).picture_index ≡ some i =
      ap (λ (f : ℕ → Surface). (f s).picture_index) (sym u) ∙ k.index in
    let o' : ((disown d c s (some i)).contexts c).owners i ≡ some s = rw (same, index) at o in
    disown-not_owner d c s i k.in_array o'

release_from-IsLinked :
    (d : Driver) (s : ℕ) (o : Option ℕ)
    → (d.surfaces s).context ≡ o
    → IsLinked d
    → IsLinked (release_from d s o)
release_from-IsLinked d s none e l = detach-IsLinked d s l (unlinked d s l e)
release_from-IsLinked d s (some c) e l =
    let w = disown d c s (d.surfaces s).picture_index in
    if-Either IsLinked (is_gone d c s) (detach d s) (detach w s)
      (λ g. detach-IsLinked d s l (gone-Unowned d c s l e g))
      (λ g.
        detach-IsLinked w s (disown-IsLinked d c s (d.surfaces s).picture_index l)
          (disowned-Unowned d c s l e))

pub release_surface-IsLinked :
    (d : Driver) (s : Option ℕ) → IsLinked d → IsLinked (release_surface_picture_index d s)
unfolding release_surface_picture_index
release_surface-IsLinked d none l = l
release_surface-IsLinked d (some s) l = release_from-IsLinked d s (d.surfaces s).context refl l
