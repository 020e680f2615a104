-- ===== src/PictureOwners/Busy.antt =====
-- The mask of the owners that are being resolved.
use nvidia_vaapi_driver.Prelude.{
  ℕ, zero, suc, ◌+◌, ◌^◌, ◌<◌, ◌≤◌, ◌≡◌, Option, Bool, true, false, arith, if◌then◌else◌, refl,
  Bool-cases, inl, inr,
}
use Prim.Native.Nat.{bit_or}
use native.Mathlib.Decide.{ℕ_discrete}
use nvidia_vaapi_driver.Prelude.Bits.{bit, bit-bit_or, bit-power, power-lt, bit_or-lt}
use nvidia_vaapi_driver.PictureOwners.{Driver, is_resolving, busy_mask}

-- One round of the loop.
abbrev collect : Bool → ℕ → ℕ → ℕ
collect r mask i = if r then bit_or mask (2 ^ i) else mask

collect-keeps : (r : Bool) (j mask i : ℕ) → bit j mask ≡ true → bit j (collect r mask i) ≡ true
collect-keeps false j mask i h = h
collect-keeps true j mask i h = rw (bit-bit_or j mask (2 ^ i), h) refl

collect-adds : (r : Bool) (j mask i : ℕ) → r ≡ true → i ≡ j → bit j (collect r mask i) ≡ true
collect-adds r j mask i h e = rw (h, bit-bit_or j mask (2 ^ i), bit-power j i) (ground (arith, e))

collect-only :
    (r : Bool) (j mask i : ℕ)
    → bit j (collect r mask i) ≡ true
    → bit j mask ≡ false
    → (r ≡ true) × (i ≡ j)
collect-only false j mask i h n = absurd (ground arith)
collect-only true j mask i h n =
    let h' = rw (bit-bit_or j mask (2 ^ i), n, bit-power j i) at h in ground arith

collect-lt : (r : Bool) (mask i : ℕ) → i < 32 → mask < 2 ^ 32 → collect r mask i < 2 ^ 32
collect-lt false mask i b h = h
collect-lt true mask i b h = bit_or-lt 32 mask (2 ^ i) h (power-lt i 32 b)

module _ (d : Driver) (owners : ℕ → Option ℕ) where
  busy-keeps :
      (rounds i j mask : ℕ) → bit j mask ≡ true → bit j (busy_mask rounds i d owners mask) ≡ true
  unfolding busy_mask
  busy-keeps zero i j mask h = h
  busy-keeps (suc rounds) i j mask h =
      let r = is_resolving d (owners i) in
      busy-keeps rounds (i + 1) j (collect r mask i) (collect-keeps r j mask i h)

  pub busy-has :
      (rounds i j mask : ℕ)
      → i ≤ j
      → j < i + rounds
      → is_resolving d (owners j) ≡ true
      → bit j (busy_mask rounds i d owners mask) ≡ true
  unfolding busy_mask
  busy-has zero i j mask a b h = absurd (omega arith)
  busy-has (suc rounds) i j mask a b h =
      let r = is_resolving d (owners i) in
      elim (ℕ_discrete i j) [
        | yes q ↦
            let h' : r ≡ true = rw q h in
            busy-keeps rounds (i + 1) j (collect r mask i) (collect-adds r j mask i h' q)
        | no q ↦ busy-has rounds (i + 1) j (collect r mask i) (omega arith) (omega arith) h
      ]

  pub busy-only :
      (rounds i j mask : ℕ)
      → bit j (busy_mask rounds i d owners mask) ≡ true
      → bit j mask ≡ false
      → is_resolving d (owners j) ≡ true
  unfolding busy_mask
  busy-only zero i j mask h n = absurd (ground arith)
  busy-only (suc rounds) i j mask h n =
      let r = is_resolving d (owners i) in
      elim (Bool-cases (bit j (collect r mask i))) [
        | inl y ↦ let (a, b) = collect-only r j mask i y n in rw (← b) a
        | inr y ↦ busy-only rounds (i + 1) j (collect r mask i) h y
      ]

  pub busy-lt :
      (rounds i mask : ℕ)
      → i + rounds ≤ 32
      → mask < 2 ^ 32
      → busy_mask rounds i d owners mask < 2 ^ 32
  unfolding busy_mask
  busy-lt zero i mask b h = h
  busy-lt (suc rounds) i mask b h =
      let r = is_resolving d (owners i) in
      busy-lt rounds (i + 1) (collect r mask i) (omega arith) (collect-lt r mask i (omega arith) h)
