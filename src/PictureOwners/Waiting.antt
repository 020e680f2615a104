-- ===== src/PictureOwners/Waiting.antt =====
-- When a surface has to wait for an index.
use nvidia_vaapi_driver.Prelude.{
  ℕ, ◌^◌, ◌<◌, ◌≤◌, ◌≡◌, inl, inr, refl, Option, none, some, true, false, arith, Bool-cases,
  Option-cases,
}
use nvidia_vaapi_driver.Prelude.Bits.{bit, bit-zero}
use nvidia_vaapi_driver.Codec.PictureIndex.{select_picture_index}
use nvidia_vaapi_driver.Codec.PictureIndex.Choice.{
  select_picture_index-Chosen, select_picture_index-eq-none,
}
use nvidia_vaapi_driver.PictureOwners.{
  Driver, Assignment, is_resolving, busy_mask, assign_selected, existing_index, may_assign,
  assign_surface_picture_index, wait_at,
}
use nvidia_vaapi_driver.PictureOwners.Busy.{busy-only, busy-lt}
use nvidia_vaapi_driver.PictureOwners.Choice.{may_assign-few}

-- Index `i` is no reference, and surface `p`, its owner, is being resolved.
pub record Occupied (d : Driver) (c limit i p : ℕ) : Type 0 where
  pub in_range : i < limit
  pub owner : (d.contexts c).owners i ≡ some p
  pub no_reference : bit i (d.contexts c).active_reference_mask ≡ false
  pub resolving : (d.surfaces p).resolving ≡ true

wait_at-waits :
    (owners : ℕ → Option ℕ) (o : Option ℕ) (p : ℕ)
    → wait_at owners o ≡ Assignment.waits_for p
    → (i : ℕ) × (o ≡ some i) × (owners i ≡ some p)
wait_at-waits owners none p h = cc
wait_at-waits owners (some i) p h = elim (Option-cases (owners i)) [
  | inl e ↦ let h' : Assignment.refused ≡ Assignment.waits_for p = rw e at h in cc
  | inr (q, e) ↦
      let h' : Assignment.waits_for q ≡ Assignment.waits_for p = rw e at h in
      let same : q ≡ p = cc in (i, refl, rw same at e)
]

module _ (d : Driver) (c s limit : ℕ) (few : limit ≤ 32) (pos : 0 < limit)
    (word : (d.contexts c).active_reference_mask < 2 ^ 32) where
  -- An index that only the busy mask rules out.
  busy_index :
      (i : ℕ)
      → select_picture_index
          (d.contexts c).current_picture_id
          limit
          (d.contexts c).active_reference_mask
          (busy_mask limit 0 d (d.contexts c).owners 0)
          (d.contexts c).recycle_cursor
        ≡ none
      → select_picture_index
          (d.contexts c).current_picture_id
          limit
          (d.contexts c).active_reference_mask
          0
          (d.contexts c).recycle_cursor
        ≡ some i
      → (i < limit)
        × (bit i (d.contexts c).active_reference_mask ≡ false)
        × (is_resolving d ((d.contexts c).owners i) ≡ true)
  busy_index i h e =
      let x = d.contexts c in
      let busy = busy_mask limit 0 d x.owners 0 in
      let b : busy < 2 ^ 32 = busy-lt d x.owners limit 0 0 (omega arith) (omega arith) in
      let k =
        select_picture_index-Chosen x.current_picture_id limit x.active_reference_mask 0
          x.recycle_cursor word (omega arith) i e in
      elim (select_picture_index-eq-none x.current_picture_id limit x.active_reference_mask busy
        x.recycle_cursor word b h) [
          | inl z ↦ absurd (omega (arith, z, pos))
          | inr (inl z) ↦ absurd (ground (arith, z, few))
          | inr (inr (full, taken)) ↦ elim k.how [
            | inl (spare, q) ↦ absurd (omega (arith, spare, full))
            | inr (full', free, t) ↦
                let z = bit-zero i in
                let u = taken i k.in_range in
                let no_ref : bit i x.active_reference_mask ≡ false = ground arith in
                let is_busy : bit i busy ≡ true = ground arith in
                (k.in_range, no_ref, busy-only d x.owners limit 0 i 0 is_busy z)
          ]
        ]

  selected-Occupied :
      (p : ℕ) (o : Option ℕ)
      → select_picture_index
          (d.contexts c).current_picture_id
          limit
          (d.contexts c).active_reference_mask
          (busy_mask limit 0 d (d.contexts c).owners 0)
          (d.contexts c).recycle_cursor
        ≡ o
      → assign_selected d c s limit o ≡ Assignment.waits_for p
      → (i : ℕ) × Occupied d c limit i p
  selected-Occupied p (some j) e h = cc
  selected-Occupied p none e h =
      let x = d.contexts c in
      let (i, eq, own) =
        wait_at-waits x.owners
          (select_picture_index x.current_picture_id limit x.active_reference_mask 0
            x.recycle_cursor)
          p h in
      let (inside, no_ref, r) = busy_index i e eq in
      (i, record { in_range = inside; owner = own; no_reference = no_ref; resolving = rw own at r })

-- With a reference mask of 32 bits, and whatever index the surface has, the assignment waits for a
-- surface only while that surface is the owner of an index below the limit that is no active
-- reference, and is being resolved.
pub assign-waits :
    (d : Driver) (c s limit p : ℕ)
    → (d.contexts c).active_reference_mask < 2 ^ 32
    → assign_surface_picture_index d c s limit ≡ Assignment.waits_for p
    → (i : ℕ) × Occupied d c limit i p
unfolding assign_surface_picture_index
assign-waits d c s limit p word h = elim (Bool-cases (may_assign (d.contexts c) limit)) [
  | inl m ↦
      let (pos, few) = may_assign-few (d.contexts c) limit m in
      elim (Option-cases
        (existing_index (d.contexts c).owners s limit (d.surfaces s).picture_index)) [
          | inl n ↦
              let h' = rw (assign_surface_picture_index, m, n) at h in
              selected-Occupied d c s limit few pos word p _ refl h'
          | inr (i, e) ↦
              let h' : Assignment.assigned i d ≡ Assignment.waits_for p =
                rw (assign_surface_picture_index, m, e) at h in
              cc
        ]
  | inr m ↦
      let h' : Assignment.refused ≡ Assignment.waits_for p =
        rw (assign_surface_picture_index, m) at h in
      cc
]
