-- ===== src/SurfaceImport/Prime2.antt =====
-- src/surface-import.c: the PRIME 2 descriptors.
use nvidia_vaapi_driver.Prelude.{
  ℕ, zero, suc, ◌+◌, ◌-◌, ◌≤◌, ◌<◌, ◌≡◌, refl, Bool, true, false, ◌||◌, ltb, leb, ◌==◌, arith, inl,
  inr, Bool-cases, ◌∙◌, ◌%◌, ◌^◌, size_max, leb-false→lt,
}
use native.Mathlib.Decide.{ℕ_discrete}
use nvidia_vaapi_driver.Prelude.Sums.{sum_below, sum_next, sum_congr}
use nvidia_vaapi_driver.AppendableBuffer.{is_null}
use nvidia_vaapi_driver.SurfaceImport.{
  ImportedObject, ImportedPlane, ImportedSurface, PrimeDescriptor, PrimeLayer, max_imported_objects,
  max_imported_planes, update, add_object_size, add_objects, add_planes, add_layers, prime2_header,
  prime2_refused, planes_of, finish_planes, parse_prime2_descriptor,
}
use nvidia_vaapi_driver.SurfaceImport.Prime.{IsUsable}

-- The fields that neither loop writes.
record Keeps (s s' : ImportedSurface) : Type 0 where
  same_valid : s'.valid ≡ s.valid
  same_legacy : s'.legacy_prime ≡ s.legacy_prime
  same_number : s'.num_objects ≡ s.num_objects

Keeps-trans : (s t u : ImportedSurface) → Keeps s t → Keeps t u → Keeps s u
Keeps-trans s t u a b = record {
  same_valid = b.same_valid ∙ a.same_valid;
  same_legacy = b.same_legacy ∙ a.same_legacy;
  same_number = b.same_number ∙ a.same_number;
}

-- The objects below `i` are in place, and their sizes in the sum.
record Loaded (i : ℕ) (s : ImportedSurface) : Type 0 where
  opened : (j : ℕ) → j < i → is_null (s.objects j).fd ≡ false
  summed : s.data_size ≡ sum_below i (λ j. (s.objects j).size)
  in_range : s.data_size ≤ size_max

record AfterObjects (s : ImportedSurface) (n : ℕ) (r : Bool × ImportedSurface) : Type 0 where
  keeps : Keeps s r.1
  loaded : r.0 ≡ true → Loaded n r.1

abbrev with_object : ImportedSurface → ℕ → ImportedObject → ImportedSurface
with_object s i o = record s {
  data_size = (s.data_size + o.size) % 2 ^ 64;
  objects = update s.objects i o;
}

with_object-Loaded :
    (i : ℕ) (s : ImportedSurface) (o : ImportedObject)
    → Loaded i s
    → is_null o.fd ≡ false
    → ltb (size_max - s.data_size) o.size ≡ false
    → Loaded (i + 1) (with_object s i o)
with_object-Loaded i s o l f fits =
    let room : s.data_size + o.size ≤ size_max = (let r = l.in_range in ground arith) in
    let same =
      sum_congr i (λ j. (update s.objects i o j).size) (λ j. (s.objects j).size)
        (λ j lt. ground arith) in
    let here : (update s.objects i o i).size ≡ o.size = ground arith in
    record {
      opened = λ j lt. elim (ℕ_discrete i j) [
        | yes q ↦ ground (arith, q)
        | no ne ↦ let old = l.opened j (omega arith) in ground (arith, ne)
      ];
      summed =
          omega
            (arith, sum_next i (λ j. (update s.objects i o j).size), l.summed, same, here, room);
      in_range = omega arith;
    }

add_objects-After :
    (n i : ℕ) (desc : PrimeDescriptor) (s : ImportedSurface)
    → Loaded i s
    → AfterObjects s (i + n) (add_objects n i desc s)
unfolding add_objects add_object_size
add_objects-After zero i desc s l =
    let e : i + 0 ≡ i = omega arith in
    rw e (record {
      keeps = record { same_valid = refl; same_legacy = refl; same_number = refl };
      loaded = λ _. l;
    })
add_objects-After (suc n) i desc s l =
    let o = desc.objects i in
    let same : Keeps s s = record { same_valid = refl; same_legacy = refl; same_number = refl } in
    elim (Bool-cases (is_null o.fd)) [
      | inl closed ↦ rw closed (record { keeps = same; loaded = λ e. cc })
      | inr opened ↦ elim (Bool-cases (ltb (size_max - s.data_size) o.size)) [
        | inl over ↦ rw (opened, over) (record { keeps = same; loaded = λ e. cc })
        | inr fits ↦
            let r =
              add_objects-After n (i + 1) desc (with_object s i o)
                (with_object-Loaded i s o l opened fits) in
            let e : i + suc n ≡ i + 1 + n = omega arith in
            rw (opened, fits, e)
              (record {
                keeps =
                    Keeps-trans s (with_object s i o) _
                      (record { same_valid = refl; same_legacy = refl; same_number = refl })
                      r.keeps;
                loaded = r.loaded;
              })
      ]
    ]

-- The planes below `index` are in place and lie in objects; the objects are as in `s₀`.
record Placed (n : ℕ) (index : ℕ) (s : ImportedSurface) : Type 0 where
  few : index ≤ max_imported_planes
  inside : (j : ℕ) → j < index → (s.planes j).object_index < s.num_objects
  still_loaded : Loaded n s

record AfterPlanes (n : ℕ) (s : ImportedSurface) (r : Bool × ℕ × ImportedSurface) : Type 0 where
  keeps : Keeps s r.2
  placed : r.0 ≡ true → Placed n r.1 r.2

abbrev with_plane : ImportedSurface → ℕ → ImportedPlane → ImportedSurface
with_plane s index p = record s { planes = update s.planes index p }

with_plane-Placed :
    (n index : ℕ) (s : ImportedSurface) (p : ImportedPlane)
    → Placed n index s
    → index < max_imported_planes
    → p.object_index < s.num_objects
    → Placed n (index + 1) (with_plane s index p)
with_plane-Placed n index s p a few inside = record {
  few = omega arith;
  inside = λ j lt. elim (ℕ_discrete index j) [
    | yes q ↦ ground (arith, q)
    | no ne ↦ let old = a.inside j (omega arith) in ground (arith, ne)
  ];
  still_loaded = record {
    opened = a.still_loaded.opened;
    summed = a.still_loaded.summed;
    in_range = a.still_loaded.in_range;
  };
}

add_planes-After :
    (rounds plane : ℕ) (layer : PrimeLayer) (n index : ℕ) (s : ImportedSurface)
    → Placed n index s
    → AfterPlanes n s (add_planes rounds plane layer index s)
unfolding add_planes
add_planes-After zero plane layer n index s a = record {
  keeps = record { same_valid = refl; same_legacy = refl; same_number = refl };
  placed = λ _. a;
}
add_planes-After (suc rounds) plane layer n index s a =
    let p : ImportedPlane = record {
      object_index = layer.object_index plane;
      offset = layer.offset plane;
      pitch = layer.pitch plane;
    } in
    let same : Keeps s s = record { same_valid = refl; same_legacy = refl; same_number = refl } in
    elim (Bool-cases (leb max_imported_planes index)) [
      | inl full ↦ rw full (record { keeps = same; placed = λ e. cc })
      | inr room ↦ elim (Bool-cases (leb s.num_objects (layer.object_index plane))) [
        | inl outside ↦ rw (room, outside) (record { keeps = same; placed = λ e. cc })
        | inr inside ↦
            let r =
              add_planes-After rounds (plane + 1) layer n (index + 1) (with_plane s index p) (
                with_plane-Placed n index s p a (leb-false→lt _ _ room)
                  (leb-false→lt _ _ inside)) in
            rw (room, inside)
              (record {
                keeps =
                    Keeps-trans s (with_plane s index p) _
                      (record { same_valid = refl; same_legacy = refl; same_number = refl })
                      r.keeps;
                placed = r.placed;
              })
      ]
    ]

add_layers-After :
    (rounds layer : ℕ) (desc : PrimeDescriptor) (n index : ℕ) (s : ImportedSurface)
    → Placed n index s
    → AfterPlanes n s (add_layers rounds layer desc index s)
unfolding add_layers
add_layers-After zero layer desc n index s a = record {
  keeps = record { same_valid = refl; same_legacy = refl; same_number = refl };
  placed = λ _. a;
}
add_layers-After (suc rounds) layer desc n index s a =
    let l = desc.layers layer in
    let same : Keeps s s = record { same_valid = refl; same_legacy = refl; same_number = refl } in
    let p = add_planes-After l.num_planes 0 l n index s a in
    elim (Bool-cases (l.num_planes == 0 || ltb 4 l.num_planes)) [
      | inl bad ↦ rw bad (record { keeps = same; placed = λ e. cc })
      | inr fine ↦ elim (Bool-cases (add_planes l.num_planes 0 l index s).0) [
        | inr stopped ↦ rw (fine, stopped) (record { keeps = p.keeps; placed = λ e. cc })
        | inl done ↦
            let r = add_layers-After rounds (layer + 1) desc n _ _ (p.placed done) in
            rw (fine, done)
              (record { keeps = Keeps-trans s _ _ p.keeps r.keeps; placed = r.placed })
      ]
    ]

finish_planes-IsUsable :
    (s : ImportedSurface) (n : ℕ) (r : Bool × ℕ × ImportedSurface)
    → AfterPlanes n s r
    → s.valid ≡ false
    → s.legacy_prime ≡ false
    → s.num_objects ≡ n
    → (0 < n) × (n ≤ max_imported_objects)
    → (finish_planes r).valid ≡ true
    → IsUsable (finish_planes r)
finish_planes-IsUsable s n (false, index, s') a v l e few h =
    absurd (ground (arith, a.keeps.same_valid))
finish_planes-IsUsable s n (true, index, s') a v l e few h =
    let p = a.placed refl in
    let same : s'.num_objects ≡ n = a.keeps.same_number ∙ e in
    record {
      some_objects = omega (arith, same);
      few_objects = omega (arith, same);
      some_planes = ground arith;
      few_planes = p.few;
      backed = λ i lt. p.still_loaded.opened i (omega (arith, same));
      inside = p.inside;
      sized = rw same p.still_loaded.summed;
      buffered = λ q. absurd (ground (arith, a.keeps.same_legacy));
    }

planes_of-IsUsable :
    (desc : PrimeDescriptor) (s : ImportedSurface) (n : ℕ) (r : Bool × ImportedSurface)
    → AfterObjects s n r
    → s.valid ≡ false
    → s.legacy_prime ≡ false
    → s.num_objects ≡ n
    → (0 < n) × (n ≤ max_imported_objects)
    → (planes_of desc r).valid ≡ true
    → IsUsable (planes_of desc r)
planes_of-IsUsable desc s n (false, s') a v l e few h = absurd (ground (arith, a.keeps.same_valid))
planes_of-IsUsable desc s n (true, s') a v l e few h =
    let placed : Placed n 0 s' = record {
      few = omega arith;
      inside = λ j lt. absurd (omega arith);
      still_loaded = a.loaded refl;
    } in
    finish_planes-IsUsable s' n _ (add_layers-After desc.num_layers 0 desc n 0 s' placed)
      (a.keeps.same_valid ∙ v) (a.keeps.same_legacy ∙ l) (a.keeps.same_number ∙ e) few h

-- A PRIME 2 descriptor that is accepted, for a surface that nothing was read into.
pub parse_prime2-IsUsable :
    (desc : PrimeDescriptor) (s : ImportedSurface)
    → s.valid ≡ false
    → s.legacy_prime ≡ false
    → s.data_size ≡ 0
    → (parse_prime2_descriptor desc s).valid ≡ true
    → IsUsable (parse_prime2_descriptor desc s)
unfolding parse_prime2_descriptor
parse_prime2-IsUsable desc s v l z h = elim (Bool-cases (prime2_refused desc)) [
  | inl r ↦ let h' : s.valid ≡ true = rw r at h in cc
  | inr f ↦
      let n = desc.num_objects in
      let few : (0 < n) × (n ≤ max_imported_objects) = ground arith in
      let start : Loaded 0 (prime2_header desc s) = record {
        opened = λ j lt. absurd (omega arith);
        summed = (unfold sum_below in z);
        in_range = omega arith;
      } in
      let r = add_objects-After n 0 desc (prime2_header desc s) start in
      let e : 0 + n ≡ n = omega arith in
      rw f (planes_of-IsUsable desc (prime2_header desc s) n _ (rw e at r) v l refl few (rw f at h))
]
