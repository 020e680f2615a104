-- ===== src/Codec/PictureIndex.antt =====
-- src/codec-utils.c: nvdSelectPictureIndex, the choice of a decode surface.
pub mod Choice
mod Tests
use nvidia_vaapi_driver.Prelude.{
  ℕ, zero, suc, ◌+◌, ◌-◌, ◌%◌, ◌^◌, Option, none, some, Bool, true, false, ◌||◌, not, ltb, leb,
  ◌==◌, if◌then◌else◌,
}
use Prim.Native.Nat.{bit_and, bit_or}
use nvidia_vaapi_driver.Prelude.Bits.{complement}

abbrev pub max_decode_surfaces : ℕ
max_decode_surfaces = 32

-- The masks are `uint32_t`.
unfoldable pub limit_mask : ℕ → ℕ
limit_mask limit = if limit == 32 then 2 ^ 32 - 1 else 2 ^ limit - 1

unfoldable pub available_mask : ℕ → ℕ → ℕ → ℕ
available_mask limit active busy = bit_and (limit_mask limit) (complement 32 (bit_or active busy))

-- The search from `start + offset` on, with the number of rounds left.
unfoldable pub first_available : ℕ → ℕ → ℕ → ℕ → ℕ → Option ℕ
first_available zero offset start limit available = none
first_available (suc rounds) offset start limit available =
    let index = (start + offset) % limit in
    let later = first_available rounds (offset + 1) start limit available in
    if not (bit_and available (2 ^ index) == 0) then some index else later

-- `none` is -1.
unfoldable pub select_picture_index : ℕ → ℕ → ℕ → ℕ → ℕ → Option ℕ
unfolding first_available limit_mask available_mask
select_picture_index allocated limit active busy cursor =
    if limit == 0 || ltb max_decode_surfaces limit
    then none
    else if ltb allocated limit
    then some allocated
    else let available = available_mask limit active busy in
      if available == 0 then none else first_available limit 0 (cursor % limit) limit available
