-- ===== src/PictureOwners/Teardown.antt =====
-- releaseContextPictureIndices: what is left of the links when a context is torn down.
use nvidia_vaapi_driver.Prelude.{
  ℕ, zero, suc, ◌+◌, ◌<◌, ◌≤◌, ◌≡◌, ◌≢◌, ◌⊎◌, refl, Option, none, some, true, Bool-cases, inl, inr,
  arith, sym, ap, ◌∙◌,
}
use native.Mathlib.Decide.{ℕ_discrete, dec_lt}
use nvidia_vaapi_driver.PictureOwners.{
  Surface, DecodeContext, Driver, va_invalid_id, update, put_context, points_to, detach,
  detach_from, detach_all, clear_owners, release_context_picture_indices,
}
use nvidia_vaapi_driver.Codec.PictureIndex.{max_decode_surfaces}
use nvidia_vaapi_driver.PictureOwners.Links.{
  Serving, Linked, IsLinked, points_to-eq, points_to_self, some-inj, update_self, update_other,
  carried, Keeps, Serving-before, put_context-Linked, if-Either, SameContexts, Serving-same,
}

-- The links of all contexts but one.
abbrev LinkedBut : ℕ → Driver → Type 0
LinkedBut c d =
    (e i s : ℕ) → c ≢ e → Serving d e → (d.contexts e).owners i ≡ some s → Linked d e i s

detach_from-LinkedBut :
    (d : Driver) (c : ℕ) (o : Option ℕ) → LinkedBut c d → LinkedBut c (detach_from d c o)
detach_from-LinkedBut d c none l = l
detach_from-LinkedBut d c (some s) l =
    if-Either (LinkedBut c) (points_to (d.surfaces s).context c) (detach d s) d
      (λ h e i t n v o.
        let w : Serving d e = record { live = v.live; staying = v.staying; locked = v.locked } in
        let k = l e i t n w o in
        elim (ℕ_discrete s t) [
          | yes q ↦
              let a = points_to-eq (d.surfaces s).context c h in
              let a' : (d.surfaces t).context ≡ some c = rw q at a in
              absurd (n (some-inj c e (sym a' ∙ k.context)))
          | no q ↦
              carried d (detach d s) e i t k (update_other d.surfaces s t _ q) (omega arith) refl
        ])
      (λ h. l)

detach_from-same : (d : Driver) (c : ℕ) (o : Option ℕ) → SameContexts d (detach_from d c o)
detach_from-same d c none = record { contexts = refl; ids = refl; slots = refl }
detach_from-same d c (some s) =
    if-Either (SameContexts d) (points_to (d.surfaces s).context c) (detach d s) d
      (λ h. record { contexts = refl; ids = refl; slots = refl })
      (λ h. record { contexts = refl; ids = refl; slots = refl })

detach_all-LinkedBut :
    (rounds i : ℕ) (d : Driver) (c : ℕ) → LinkedBut c d → LinkedBut c (detach_all rounds i d c)
unfolding detach_all
detach_all-LinkedBut zero i d c l = l
detach_all-LinkedBut (suc rounds) i d c l =
    detach_all-LinkedBut rounds (i + 1) (detach_from d c (d.surface_at i)) c
      (detach_from-LinkedBut d c (d.surface_at i) l)

detach_all-same : (rounds i : ℕ) (d : Driver) (c : ℕ) → SameContexts d (detach_all rounds i d c)
unfolding detach_all
detach_all-same zero i d c = record { contexts = refl; ids = refl; slots = refl }
detach_all-same (suc rounds) i d c =
    let a = detach_from-same d c (d.surface_at i) in
    let b = detach_all-same rounds (i + 1) (detach_from d c (d.surface_at i)) c in
    record { contexts = b.contexts ∙ a.contexts; ids = b.ids ∙ a.ids; slots = b.slots ∙ a.slots }

clear_owners-stays :
    (rounds i j : ℕ) (f : ℕ → Option ℕ) → f j ≡ none → clear_owners rounds i f j ≡ none
unfolding clear_owners
clear_owners-stays zero i j f h = h
clear_owners-stays (suc rounds) i j f h =
    clear_owners-stays rounds (i + 1) j (update f i none) (ground (arith, h))

clear_owners-in :
    (rounds i j : ℕ) (f : ℕ → Option ℕ) → i ≤ j → j < i + rounds → clear_owners rounds i f j ≡ none
unfolding clear_owners
clear_owners-in zero i j f a b = absurd (omega arith)
clear_owners-in (suc rounds) i j f a b = elim (ℕ_discrete i j) [
  | yes e ↦ clear_owners-stays rounds (i + 1) j (update f i none) (update_self f i j none e)
  | no e ↦ clear_owners-in rounds (i + 1) j (update f i none) (omega arith) (omega arith)
]

clear_owners-less :
    (rounds i j s : ℕ) (f : ℕ → Option ℕ) → clear_owners rounds i f j ≡ some s → f j ≡ some s
unfolding clear_owners
clear_owners-less zero i j s f h = h
clear_owners-less (suc rounds) i j s f h =
    let o = clear_owners-less rounds (i + 1) j s (update f i none) h in ground arith

-- A surface that is in no context and has no index.
abbrev pub detached : Surface → Surface
detached u = record u { context = none; context_id = va_invalid_id; picture_index = none }

-- What is left of context `c`: no owner below the 32 indices, no reference, and each surface of the
-- object table that was in it is in no context and has no index; the surfaces of other contexts and
-- the other contexts stay.
pub record TornDown (d : Driver) (c : ℕ) (d' : Driver) : Type 0 where
  pub no_owner : (i : ℕ) → i < max_decode_surfaces → (d'.contexts c).owners i ≡ none
  pub no_active : (d'.contexts c).active_reference_mask ≡ 0
  pub no_building : (d'.contexts c).building_reference_mask ≡ 0
  pub no_surface :
      (k s : ℕ) → k < d.capacity → d.surface_at k ≡ some s → (d'.surfaces s).context ≢ some c
  pub surfaces_detached :
      (k s : ℕ)
      → k < d.capacity
      → d.surface_at k ≡ some s
      → (d.surfaces s).context ≡ some c
      → d'.surfaces s ≡ detached (d.surfaces s)
  pub others : (s : ℕ) → (d.surfaces s).context ≢ some c → d'.surfaces s ≡ d.surfaces s
  pub other_contexts : (e : ℕ) → c ≢ e → d'.contexts e ≡ d.contexts e
  pub linked : IsLinked d → IsLinked d'

detach_from-gone :
    (d : Driver) (c s : ℕ) (o : Option ℕ)
    → (d.surfaces s).context ≢ some c
    → (detach_from d c o).surfaces s ≡ d.surfaces s
detach_from-gone d c s none n = refl
detach_from-gone d c s (some t) n =
    if-Either (λ (e : Driver). e.surfaces s ≡ d.surfaces s) (points_to (d.surfaces t).context c)
      (detach d t) d
      (λ h.
        let a = points_to-eq (d.surfaces t).context c h in
        elim (ℕ_discrete t s) [
          | yes q ↦ let a' : (d.surfaces s).context ≡ some c = rw q at a in absurd (n a')
          | no q ↦ update_other d.surfaces t s _ q
        ])
      (λ h. refl)

detach_all-gone :
    (rounds i : ℕ) (d : Driver) (c s : ℕ)
    → (d.surfaces s).context ≢ some c
    → (detach_all rounds i d c).surfaces s ≡ d.surfaces s
unfolding detach_all
detach_all-gone zero i d c s n = refl
detach_all-gone (suc rounds) i d c s n =
    let a = detach_from-gone d c s (d.surface_at i) n in
    let n' : ((detach_from d c (d.surface_at i)).surfaces s).context ≢ some c = rw a n in
    detach_all-gone rounds (i + 1) (detach_from d c (d.surface_at i)) c s n' ∙ a

detach_from_self : (d : Driver) (c s : ℕ) → ((detach_from d c (some s)).surfaces s).context ≢ some c
detach_from_self d c s =
    if-Either (λ (e : Driver). (e.surfaces s).context ≢ some c) (points_to (d.surfaces s).context c)
      (detach d s) d (λ h o. ground arith)
      (λ h o. ground (arith, points_to_self (d.surfaces s).context c o))

detach_all-no_surface :
    (rounds i k : ℕ) (d : Driver) (c s : ℕ)
    → i ≤ k
    → k < i + rounds
    → d.surface_at k ≡ some s
    → ((detach_all rounds i d c).surfaces s).context ≢ some c
unfolding detach_all
detach_all-no_surface zero i k d c s a b e = absurd (omega arith)
detach_all-no_surface (suc rounds) i k d c s a b e =
    let d1 = detach_from d c (d.surface_at i) in
    elim (ℕ_discrete i k) [
      | yes q ↦
          let e' : d.surface_at i ≡ some s = rw q e in
          let n : (d1.surfaces s).context ≢ some c = rw e' (detach_from_self d c s) in
          rw (detach_all-gone rounds (i + 1) d1 c s n) n
      | no q ↦
          let slots = (detach_from-same d c (d.surface_at i)).slots in
          detach_all-no_surface rounds (i + 1) k d1 c s (omega arith) (omega arith)
            (ap (λ (f : ℕ → Option ℕ). f k) slots ∙ e)
    ]

detach_from-either :
    (d : Driver) (c s : ℕ) (o : Option ℕ)
    → ((detach_from d c o).surfaces s ≡ d.surfaces s)
      ⊎ ((detach_from d c o).surfaces s ≡ detached (d.surfaces s))
detach_from-either d c s none = inl refl
detach_from-either d c s (some t) =
    if-Either
      (λ (e : Driver). (e.surfaces s ≡ d.surfaces s) ⊎ (e.surfaces s ≡ detached (d.surfaces s)))
      (points_to (d.surfaces t).context c) (detach d t) d
      (λ h. elim (ℕ_discrete t s) [
        | yes q ↦ inr (update_self d.surfaces t s _ q ∙ ap (λ (x : ℕ). detached (d.surfaces x)) q)
        | no q ↦ inl (update_other d.surfaces t s _ q)
      ])
      (λ h. inl refl)

detach_from-at :
    (d : Driver) (c s : ℕ)
    → (d.surfaces s).context ≡ some c
    → (detach_from d c (some s)).surfaces s ≡ detached (d.surfaces s)
detach_from-at d c s e =
    rw (points_to_self (d.surfaces s).context c e) (update_self d.surfaces s s _ refl)

detach_all-detached :
    (rounds i k : ℕ) (d : Driver) (c s : ℕ)
    → i ≤ k
    → k < i + rounds
    → d.surface_at k ≡ some s
    → (d.surfaces s).context ≡ some c
    → (detach_all rounds i d c).surfaces s ≡ detached (d.surfaces s)
unfolding detach_all
detach_all-detached zero i k d c s a b e o = absurd (omega arith)
detach_all-detached (suc rounds) i k d c s a b e o =
    let d1 = detach_from d c (d.surface_at i) in
    let done = λ (r : d1.surfaces s ≡ detached (d.surfaces s)).
      (let gone : (d1.surfaces s).context ≢ some c = rw r (λ q. cc) in
        detach_all-gone rounds (i + 1) d1 c s gone ∙ r) in
    elim (ℕ_discrete i k) [
      | yes q ↦ let e' : d.surface_at i ≡ some s = rw q e in done (rw e' (detach_from-at d c s o))
      | no q ↦
          let slots = (detach_from-same d c (d.surface_at i)).slots in
          elim (detach_from-either d c s (d.surface_at i)) [
            | inl same ↦
                detach_all-detached rounds (i + 1) k d1 c s (omega arith) (omega arith)
                  (ap (λ (f : ℕ → Option ℕ). f k) slots ∙ e)
                  (ap (λ (u : Surface). u.context) same ∙ o)
                ∙ ap detached same
            | inr r ↦ done r
          ]
    ]

-- The context as its teardown leaves it.
abbrev emptied : DecodeContext → DecodeContext
emptied x = record x {
  owners = clear_owners max_decode_surfaces 0 x.owners;
  active_reference_mask = 0;
  building_reference_mask = 0;
}

module _ (d w : Driver) (c : ℕ) (same : SameContexts d w) where
  emptied-Keeps : Keeps w c (emptied (w.contexts c))
  emptied-Keeps = record { id = refl; destroying = refl; mutex = refl; current = omega arith }

  emptied-no_owner :
      (i s : ℕ)
      → IsLinked d
      → Serving w c
      → clear_owners max_decode_surfaces 0 (w.contexts c).owners i ≢ some s
  emptied-no_owner i s l v o = elim (dec_lt i 32) [
    | yes b ↦
        let n = clear_owners-in max_decode_surfaces 0 i (w.contexts c).owners (omega arith) b in cc
    | no b ↦
        let o' = clear_owners-less max_decode_surfaces 0 i s (w.contexts c).owners o in
        let o'' : (d.contexts c).owners i ≡ some s =
          ap (λ (f : ℕ → DecodeContext). (f c).owners i) (sym same.contexts) ∙ o' in
        let k = l c i s (Serving-same d w c same v) o'' in absurd (omega (arith, b, k.in_array))
  ]

  emptied-IsLinked :
      LinkedBut c w → IsLinked d → IsLinked (put_context w c (emptied (w.contexts c)))
  emptied-IsLinked but l e i s v o =
      let x = emptied (w.contexts c) in
      let v' = Serving-before w c x emptied-Keeps e v in
      elim (ℕ_discrete c e) [
        | yes q ↦
            let o' : x.owners i ≡ some s =
              ap (λ (y : DecodeContext). y.owners i) (sym (update_self w.contexts c e x q)) ∙ o in
            absurd (emptied-no_owner i s l (rw q v') o')
        | no q ↦
            let o' : (w.contexts e).owners i ≡ some s =
              ap (λ (y : DecodeContext). y.owners i) (sym (update_other w.contexts c e x q)) ∙ o in
            put_context-Linked w c x emptied-Keeps e i s (but e i s q v' o')
      ]

-- releaseContextPictureIndices on a context with its mutex takes every owner and every reference
-- from it and leaves each surface of the object table that was in it in no context and without an
-- index; other surfaces and the other contexts stay as they were, and the links stay right.
pub release_context-TornDown :
    (d : Driver) (c : ℕ)
    → (d.contexts c).mutex_initialized ≡ true
    → TornDown d c (release_context_picture_indices d (some c))
unfolding release_context_picture_indices
release_context-TornDown d c h =
    let w = detach_all d.capacity 0 d c in
    let x = emptied (w.contexts c) in
    let self = update_self w.contexts c c x refl in
    let same = detach_all-same d.capacity 0 d c in
    rw h (record {
      no_owner = λ i b.
          rw self (clear_owners-in max_decode_surfaces 0 i (w.contexts c).owners (omega arith) b);
      no_active = ap (λ (y : DecodeContext). y.active_reference_mask) self;
      no_building = ap (λ (y : DecodeContext). y.building_reference_mask) self;
      no_surface =
          λ k s b e. detach_all-no_surface d.capacity 0 k d c s (omega arith) (omega arith) e;
      surfaces_detached =
          λ k s b e o. detach_all-detached d.capacity 0 k d c s (omega arith) (omega arith) e o;
      others = λ s n. detach_all-gone d.capacity 0 d c s n;
      other_contexts = λ e n.
          update_other w.contexts c e x n ∙ ap (λ (f : ℕ → DecodeContext). f e) same.contexts;
      linked = λ l.
          emptied-IsLinked d w c same
            (detach_all-LinkedBut d.capacity 0 d c (λ e i s n v o. l e i s v o)) l;
    })

pub release_context-IsLinked :
    (d : Driver) (c : Option ℕ) → IsLinked d → IsLinked (release_context_picture_indices d c)
unfolding release_context_picture_indices
release_context-IsLinked d none l = l
release_context-IsLinked d (some c) l = elim (Bool-cases (d.contexts c).mutex_initialized) [
  | inl h ↦ (release_context-TornDown d c h).linked l
  | inr h ↦ rw h l
]
