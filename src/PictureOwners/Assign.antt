-- ===== src/PictureOwners/Assign.antt =====
-- The assignment of an index keeps the links, whichever index is taken.
use nvidia_vaapi_driver.Prelude.{
  ℕ, ◌+◌, ◌%◌, ◌<◌, ◌≤◌, ◌≡◌, ◌≢◌, ◌⊎◌, inl, inr, refl, Option, none, some, not, ◌&&◌, ◌==◌, sym,
  ap, ◌∙◌,
}
use native.Mathlib.Decide.{ℕ_discrete}
use nvidia_vaapi_driver.PictureOwners.{
  Surface, DecodeContext, Driver, update, put_surface, points_to, recycle, take_index,
}
use nvidia_vaapi_driver.PictureOwners.Links.{
  Serving, Linked, IsLinked, Unowned, some-inj, update_self, update_other, carried, Keeps, same_id,
  current_grows, Serving-before, if-Either, SameContexts, Serving-same,
}

pub recycle-same : (d : Driver) (s i : ℕ) (o : Option ℕ) → SameContexts d (recycle d s i o)
recycle-same d s i none = record { contexts = refl; ids = refl; slots = refl }
recycle-same d s i (some p) =
    if-Either (SameContexts d) (not (p == s) && points_to (d.surfaces p).picture_index i)
      (put_surface d p (record (d.surfaces p) { picture_index = none })) d
      (λ h. record { contexts = refl; ids = refl; slots = refl })
      (λ h. record { contexts = refl; ids = refl; slots = refl })

recycle_other :
    (d : Driver) (s i t : ℕ) (o : Option ℕ)
    → o ≢ some t
    → (recycle d s i o).surfaces t ≡ d.surfaces t
recycle_other d s i t none n = refl
recycle_other d s i t (some p) n =
    if-Either (λ (e : Driver). e.surfaces t ≡ d.surfaces t)
      (not (p == s) && points_to (d.surfaces p).picture_index i)
      (put_surface d p (record (d.surfaces p) { picture_index = none })) d
      (λ h. update_other d.surfaces p t _ (λ q. n (ap some q))) (λ h. refl)

-- The owner of another index keeps its surface when index `i` of `c` is recycled.
pub recycle-kept :
    (d : Driver) (c s i e j t : ℕ)
    → IsLinked d
    → Serving d c
    → Linked d e j t
    → (c ≡ e → i ≢ j)
    → (recycle d s i ((d.contexts c).owners i)).surfaces t ≡ d.surfaces t
recycle-kept d c s i e j t l v k n = recycle_other d s i t ((d.contexts c).owners i) (λ o.
    let k' = l c i t v o in
    n (some-inj c e (sym k'.context ∙ k.context)) (some-inj i j (sym k'.index ∙ k.index)))

Linked-congr :
    (d : Driver) (c e i j s t : ℕ) → c ≡ e → i ≡ j → s ≡ t → Linked d c i s → Linked d e j t
Linked-congr d c e i j s t p q r k =
    let k1 : Linked d e i s = rw p at k in let k2 : Linked d e j s = rw q at k1 in rw r at k2

module _ (d w : Driver) (c s i current limit : ℕ) (l : IsLinked d) (v : Serving d c)
    (n : Unowned d s) (same : SameContexts d w)
    (kept : (e j t : ℕ) → Linked d e j t → (c ≡ e → i ≢ j) → w.surfaces t ≡ d.surfaces t)
    (small : i < 32) (below : i < current)
    (grows : (w.contexts c).current_picture_id ≤ current) where
  abbrev given : DecodeContext
  given = record (w.contexts c) {
    owners = update (w.contexts c).owners i (some s);
    current_picture_id = current;
    recycle_cursor = (i + 1) % limit;
  }

  abbrev held : Surface
  held = record (w.surfaces s) {
    picture_index = some i;
    context = some c;
    context_id = (w.contexts c).id;
  }

  abbrev after : Driver
  after = take_index w c s i current limit

  given-Keeps : Keeps (put_surface w s held) c given
  given-Keeps = record { id = refl; destroying = refl; mutex = refl; current = grows }

  take_index-Serving : (e : ℕ) → Serving after e → Serving d e
  take_index-Serving e u =
      Serving-same d (put_surface w s held) e
        (record { contexts = same.contexts; ids = same.ids; slots = same.slots })
        (Serving-before (put_surface w s held) c given given-Keeps e u)

  take_index-current :
      (e : ℕ) → (d.contexts e).current_picture_id ≤ (after.contexts e).current_picture_id
  take_index-current e =
      rw (ap (λ (f : ℕ → DecodeContext). (f e).current_picture_id) (sym same.contexts))
        (current_grows (put_surface w s held) c given given-Keeps e)

  take_index-id : (e : ℕ) → (after.contexts e).id ≡ (d.contexts e).id
  take_index-id e =
      same_id (put_surface w s held) c given given-Keeps e
      ∙ ap (λ (f : ℕ → DecodeContext). (f e).id) same.contexts

  old_link : (e j t : ℕ) → Linked d e j t → (c ≡ e → i ≢ j) → s ≢ t → Linked after e j t
  old_link e j t k m ne =
      carried d after e j t k (update_other w.surfaces s t held ne ∙ kept e j t k m)
        (take_index-current e) (take_index-id e)

  self_given : after.contexts c ≡ given
  self_given = update_self w.contexts c c given refl

  pub new_link : Linked after c i s
  new_link =
      let u = update_self w.surfaces s s held refl in
      record {
        in_array = small;
        handed_out = rw self_given below;
        index = ap (λ (y : Surface). y.picture_index) u;
        context = ap (λ (y : Surface). y.context) u;
        context_id = rw self_given (ap (λ (y : Surface). y.context_id) u);
      }

  -- The owner of `j` of the context is the surface, or who it was.
  owner_after :
      (j t : ℕ)
      → (after.contexts c).owners j ≡ some t
      → (i ≡ j) × (s ≡ t) ⊎ (i ≢ j) × ((d.contexts c).owners j ≡ some t)
  owner_after j t o =
      let o' : update (w.contexts c).owners i (some s) j ≡ some t = rw self_given at o in
      elim (ℕ_discrete i j) [
        | yes q ↦
            inl (q, some-inj s t (sym (update_self (w.contexts c).owners i j (some s) q) ∙ o'))
        | no q ↦
            let o'' = sym (update_other (w.contexts c).owners i j (some s) q) ∙ o' in
            inr (q, ap (λ (f : ℕ → DecodeContext). (f c).owners j) (sym same.contexts) ∙ o'')
      ]

  other_owner :
      (e j t : ℕ) → c ≢ e → (after.contexts e).owners j ≡ some t → (d.contexts e).owners j ≡ some t
  other_owner e j t q o =
      ap (λ (f : ℕ → DecodeContext). (f e).owners j) (sym same.contexts)
      ∙ ap (λ (y : DecodeContext). y.owners j) (sym (update_other w.contexts c e given q))
      ∙ o

  from_before :
      (e j t : ℕ)
      → Serving after e
      → (c ≡ e → i ≢ j)
      → (d.contexts e).owners j ≡ some t
      → Linked after e j t
  from_before e j t u m o =
      let u' = take_index-Serving e u in old_link e j t (l e j t u' o) m (λ q. n e j u' (rw q o))

  pub take_index-IsLinked : IsLinked after
  take_index-IsLinked e j t u o = elim (ℕ_discrete c e) [
    | yes q ↦
        let o' = ap (λ (x : ℕ). (after.contexts x).owners j) q ∙ o in
        elim (owner_after j t o') [
          | inl (a, b) ↦ Linked-congr after c e i j s t q a b new_link
          | inr (a, b) ↦
              from_before e j t u (λ z. a) (ap (λ (x : ℕ). (d.contexts x).owners j) (sym q) ∙ b)
        ]
    | no q ↦ from_before e j t u (λ z. absurd (q z)) (other_owner e j t q o)
  ]
