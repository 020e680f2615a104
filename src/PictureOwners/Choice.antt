-- ===== src/PictureOwners/Choice.antt =====
-- Which index a surface gets when decoding begins, when it waits for one and when it gets none.
use nvidia_vaapi_driver.Prelude.{
  ℕ, zero, suc, ◌+◌, ◌%◌, ◌^◌, ◌<◌, ◌≤◌, ◌≡◌, ◌≢◌, ◌⊎◌, inl, inr, refl, Option, none, some, true,
  false, leb, ◌==◌, arith, if◌then◌else◌, ap, ◌∙◌, Bool-cases, Option-cases,
}
use native.Mathlib.Nat.{mod-lt}
use nvidia_vaapi_driver.Prelude.Bits.{bit}
use nvidia_vaapi_driver.Codec.PictureIndex.{select_picture_index}
use nvidia_vaapi_driver.Codec.PictureIndex.Choice.{select_picture_index-Chosen}
use nvidia_vaapi_driver.PictureOwners.{
  DecodeContext, Driver, Assignment, update, is_resolving, busy_mask, recycle, take_index,
  may_assign, assign_selected, assign_surface_picture_index, first_unowned, assign_unowned,
  assign_av1_surface_picture_index, begin_index, wait_at,
}
use nvidia_vaapi_driver.PictureOwners.Links.{
  Serving, Linked, IsLinked, Unowned, some-inj, update_self, update_other, SameContexts,
}
use nvidia_vaapi_driver.PictureOwners.Assign.{
  recycle-same, recycle-kept, take_index-IsLinked, new_link,
}
use nvidia_vaapi_driver.PictureOwners.Busy.{busy-has, busy-lt}

-- What an assignment of index `i` of context `c` to surface `s` does.
pub record Assigned (d : Driver) (c s limit i : ℕ) (d' : Driver) : Type 0 where
  pub in_range : i < limit
  pub owner : (d'.contexts c).owners i ≡ some s
  pub link : Linked d' c i s
  -- the index had no owner, or is no reference and its owner is not being resolved
  pub idle :
      ((d.contexts c).owners i ≡ none)
      ⊎ (bit i (d.contexts c).active_reference_mask ≡ false)
        × (is_resolving d ((d.contexts c).owners i) ≡ false)
  pub other_owners : (j : ℕ) → i ≢ j → (d'.contexts c).owners j ≡ (d.contexts c).owners j
  pub linked : IsLinked d'

-- A surface without an index is no owner.
no_index-Unowned :
    (d : Driver) (s : ℕ) → IsLinked d → (d.surfaces s).picture_index ≡ none → Unowned d s
no_index-Unowned d s l h c i v o = let k = l c i s v o in let e = k.index in cc

-- No index from the counter on has an owner.
fresh-unowned :
    (d : Driver) (c i : ℕ)
    → IsLinked d
    → Serving d c
    → (d.contexts c).current_picture_id ≤ i
    → (d.contexts c).owners i ≡ none
fresh-unowned d c i l v h = elim (Option-cases ((d.contexts c).owners i)) [
  | inl e ↦ e
  | inr (s, e) ↦ let k = l c i s v e in absurd (omega (arith, k.handed_out, h))
]

take_index-owners :
    (w : Driver) (c s i current limit j : ℕ)
    → ((take_index w c s i current limit).contexts c).owners j
      ≡ update (w.contexts c).owners i (some s) j
take_index-owners w c s i current limit j =
    ap (λ (y : DecodeContext). y.owners j) (update_self w.contexts c c _ refl)

wait_at-assigns :
    (owners : ℕ → Option ℕ) (o : Option ℕ) (i : ℕ) (d' : Driver)
    → wait_at owners o ≢ Assignment.assigned i d'
wait_at-assigns owners none i d' h = cc
wait_at-assigns owners (some j) i d' h = elim (Option-cases (owners j)) [
  | inl e ↦ let h' : Assignment.refused ≡ Assignment.assigned i d' = rw e at h in cc
  | inr (p, e) ↦ let h' : Assignment.waits_for p ≡ Assignment.assigned i d' = rw e at h in cc
]

pub assigned-inj :
    (i j : ℕ) (d e : Driver) → Assignment.assigned i d ≡ Assignment.assigned j e → (i ≡ j) × (d ≡ e)
assigned-inj i j d e h = (cc, cc)

pub may_assign-few :
    (x : DecodeContext) (limit : ℕ) → may_assign x limit ≡ true → (0 < limit) × (limit ≤ 32)
may_assign-few x limit h = ground arith

module _ (d : Driver) (c s limit : ℕ) (l : IsLinked d) (v : Serving d c)
    (n : (d.surfaces s).picture_index ≡ none) (few : limit ≤ 32) where
  -- The writes of an assignment, from a driver in which only surfaces differ.
  taken-Assigned :
      (w : Driver) (i current : ℕ)
      → SameContexts d w
      → ((e j t : ℕ) → Linked d e j t → (c ≡ e → i ≢ j) → w.surfaces t ≡ d.surfaces t)
      → i < limit
      → i < current
      → (d.contexts c).current_picture_id ≤ current
      → ((d.contexts c).owners i ≡ none)
        ⊎ (bit i (d.contexts c).active_reference_mask ≡ false)
          × (is_resolving d ((d.contexts c).owners i) ≡ false)
      → Assigned d c s limit i (take_index w c s i current limit)
  taken-Assigned w i current same kept inside below grows idle =
      let grows' : (w.contexts c).current_picture_id ≤ current = rw same.contexts grows in
      let u = no_index-Unowned d s l n in
      let small : i < 32 = omega arith in
      let owners = take_index-owners w c s i current limit in
      record {
        in_range = inside;
        owner = owners i ∙ update_self (w.contexts c).owners i i (some s) refl;
        link = new_link d w c s i current limit l v u same kept small below grows';
        idle = idle;
        other_owners = λ j q.
            owners j
            ∙ update_other (w.contexts c).owners i j (some s) q
            ∙ ap (λ (f : ℕ → DecodeContext). (f c).owners j) same.contexts;
        linked = take_index-IsLinked d w c s i current limit l v u same kept small below grows';
      }

  same_driver : SameContexts d d
  same_driver = record { contexts = refl; ids = refl; slots = refl }

  unowned-Assigned :
      (i current : ℕ)
      → (d.contexts c).owners i ≡ none
      → i < limit
      → i < current
      → (d.contexts c).current_picture_id ≤ current
      → Assigned d c s limit i (take_index d c s i current limit)
  unowned-Assigned i current o inside below grows =
      taken-Assigned d i current same_driver (λ e j t k m. refl) inside below grows (inl o)

  recycled-Assigned :
      (i current : ℕ)
      → ((d.contexts c).owners i ≡ none)
        ⊎ (bit i (d.contexts c).active_reference_mask ≡ false)
          × (is_resolving d ((d.contexts c).owners i) ≡ false)
      → i < limit
      → i < current
      → (d.contexts c).current_picture_id ≤ current
      → Assigned d c s limit i
          (take_index (recycle d s i ((d.contexts c).owners i)) c s i current limit)
  recycled-Assigned i current idle inside below grows =
      taken-Assigned (recycle d s i ((d.contexts c).owners i)) i current
        (recycle-same d s i ((d.contexts c).owners i))
        (λ e j t k m. recycle-kept d c s i e j t l v k m) inside below grows idle

  first_unowned-free :
      (rounds offset cursor i : ℕ)
      → 0 < limit
      → first_unowned rounds offset (d.contexts c).owners cursor limit ≡ some i
      → (i < limit) × ((d.contexts c).owners i ≡ none)
  unfolding first_unowned
  first_unowned-free zero offset cursor i pos h = cc
  first_unowned-free (suc rounds) offset cursor i pos h =
      let candidate = (cursor + offset) % 2 ^ 32 % limit in
      elim (Option-cases ((d.contexts c).owners candidate)) [
        | inl e ↦
            let h' : ◌≡◌ {A = Option ℕ} (some candidate) (some i) = rw (first_unowned, e) at h in
            let q = some-inj candidate i h' in (rw (← q) (mod-lt _ pos), rw (← q) e)
        | inr (t, e) ↦
            let h' : first_unowned rounds (offset + 1) (d.contexts c).owners cursor limit ≡ some i =
              rw (first_unowned, e) at h in
            first_unowned-free rounds (offset + 1) cursor i pos h'
      ]

  -- An index that the selection gives is idle.
  selected-idle :
      (i : ℕ)
      → (d.contexts c).active_reference_mask < 2 ^ 32
      → select_picture_index
          (d.contexts c).current_picture_id
          limit
          (d.contexts c).active_reference_mask
          (busy_mask limit 0 d (d.contexts c).owners 0)
          (d.contexts c).recycle_cursor
        ≡ some i
      → (i < limit)
        × (i ≤ (d.contexts c).current_picture_id)
        × (((d.contexts c).owners i ≡ none)
            ⊎ (bit i (d.contexts c).active_reference_mask ≡ false)
              × (is_resolving d ((d.contexts c).owners i) ≡ false))
  selected-idle i word h =
      let x = d.contexts c in
      let busy = busy_mask limit 0 d x.owners 0 in
      let b : busy < 2 ^ 32 = busy-lt d x.owners limit 0 0 (omega arith) (omega arith) in
      let k =
        select_picture_index-Chosen x.current_picture_id limit x.active_reference_mask busy
          x.recycle_cursor word b i h in
      elim k.how [
        | inl (spare, e) ↦ (k.in_range, omega arith, inl (fresh-unowned d c i l v (omega arith)))
        | inr (full, free, t) ↦ (
          k.in_range,
          omega (arith, k.in_range),
          inr (
            ground arith,
            elim (Bool-cases (is_resolving d (x.owners i))) [
              | inl y ↦
                  let z =
                    busy-has d x.owners limit 0 i 0 (omega arith) (omega (arith, k.in_range)) y in
                  ground arith
              | inr y ↦ y
            ],
          ),
        )
      ]

  pub chosen-Assigned :
      (i : ℕ) (d' : Driver)
      → (d.contexts c).active_reference_mask < 2 ^ 32
      → (o : Option ℕ)
      → select_picture_index
          (d.contexts c).current_picture_id
          limit
          (d.contexts c).active_reference_mask
          (busy_mask limit 0 d (d.contexts c).owners 0)
          (d.contexts c).recycle_cursor
        ≡ o
      → assign_selected d c s limit o ≡ Assignment.assigned i d'
      → Assigned d c s limit i d'
  chosen-Assigned i d' word none e h =
      let x = d.contexts c in
      absurd (
        wait_at-assigns x.owners
          (select_picture_index x.current_picture_id limit x.active_reference_mask 0
            x.recycle_cursor)
          i d' h)
  chosen-Assigned i d' word (some j) e h =
      let x = d.contexts c in
      let current =
        if j == x.current_picture_id then x.current_picture_id + 1 else x.current_picture_id in
      let (inside, below, idle) = selected-idle j word e in
      let a = recycled-Assigned j current idle inside (ground arith) (ground arith) in
      let (p, q) = assigned-inj j i _ d' h in rw (← p, ← q) a

  pub free-Assigned :
      (i : ℕ) (d' : Driver)
      → 0 < limit
      → (o : Option ℕ)
      → first_unowned limit 0 (d.contexts c).owners (d.contexts c).recycle_cursor limit ≡ o
      → assign_unowned d c s limit o ≡ Assignment.assigned i d'
      → Assigned d c s limit i d'
  free-Assigned i d' pos none e h = cc
  free-Assigned i d' pos (some j) e h =
      let x = d.contexts c in
      let current = if leb x.current_picture_id j then j + 1 else x.current_picture_id in
      let (inside, o) = first_unowned-free limit 0 x.recycle_cursor j pos e in
      let a = unowned-Assigned j current o inside (ground arith) (ground arith) in
      let (p, q) = assigned-inj j i _ d' h in rw (← p, ← q) a

assign-Assigned :
    (d : Driver) (c s limit i : ℕ) (d' : Driver)
    → IsLinked d
    → Serving d c
    → (d.surfaces s).picture_index ≡ none
    → (d.contexts c).active_reference_mask < 2 ^ 32
    → assign_surface_picture_index d c s limit ≡ Assignment.assigned i d'
    → Assigned d c s limit i d'
unfolding assign_surface_picture_index
assign-Assigned d c s limit i d' l v n word h =
    elim (Bool-cases (may_assign (d.contexts c) limit)) [
      | inl m ↦
          let h' = rw (assign_surface_picture_index, m, n) at h in
          chosen-Assigned d c s limit l v n (may_assign-few (d.contexts c) limit m).1 i d' word _
            refl h'
      | inr m ↦
          let h' : Assignment.refused ≡ Assignment.assigned i d' =
            rw (assign_surface_picture_index, m) at h in
          cc
    ]

assign_av1-Assigned :
    (d : Driver) (c s limit i : ℕ) (d' : Driver)
    → IsLinked d
    → Serving d c
    → (d.surfaces s).picture_index ≡ none
    → assign_av1_surface_picture_index d c s limit ≡ Assignment.assigned i d'
    → Assigned d c s limit i d'
unfolding assign_av1_surface_picture_index
assign_av1-Assigned d c s limit i d' l v n h = elim (Bool-cases (may_assign (d.contexts c) limit)) [
  | inl m ↦
      let h' = rw (assign_av1_surface_picture_index, m, n) at h in
      let (pos, few) = may_assign-few (d.contexts c) limit m in
      free-Assigned d c s limit l v n few i d' pos _ refl h'
  | inr m ↦
      let h' : Assignment.refused ≡ Assignment.assigned i d' =
        rw (assign_av1_surface_picture_index, m) at h in
      cc
]

-- When nvBeginPicture gives an index of a live context to a surface that had none, in a driver
-- whose links are right and with a 32-bit reference mask: the index is below the limit, the surface
-- is now its owner and knows it, the other indices keep their owners, and the links stay right. The
-- index had no owner, or it is no active reference and its owner was not being resolved.
pub begin_index-Assigned :
    (d : Driver) (c s limit i : ℕ) (d' : Driver)
    → IsLinked d
    → Serving d c
    → (d.surfaces s).picture_index ≡ none
    → (d.contexts c).active_reference_mask < 2 ^ 32
    → begin_index d c s limit ≡ Assignment.assigned i d'
    → Assigned d c s limit i d'
unfolding begin_index
begin_index-Assigned d c s limit i d' l v n word h = elim (Bool-cases (d.contexts c).is_av1) [
  | inl a ↦
      let h' : assign_av1_surface_picture_index d c s limit ≡ Assignment.assigned i d' =
        rw (begin_index, n, a) at h in
      assign_av1-Assigned d c s limit i d' l v n h'
  | inr a ↦
      let h' : assign_surface_picture_index d c s limit ≡ Assignment.assigned i d' =
        rw (begin_index, n, a) at h in
      assign-Assigned d c s limit i d' l v n word h'
]
