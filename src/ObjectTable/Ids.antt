-- ===== src/ObjectTable/Ids.antt =====
-- src/object-table.c: the packing of generation and index into an object id.
use nvidia_vaapi_driver.Prelude.{ℕ, ◌+◌, ◌-◌, ◌*◌, ◌/◌, ◌%◌, ◌^◌, ◌<◌, ◌≡◌, not, ◌==◌, true, arith}
use Prim.Native.Nat.{bit_and}
use native.Mathlib.Nat.{mod-mod}
use nvidia_vaapi_driver.Prelude.Bits.{bit_or_high, bit_and_low_mask}
use nvidia_vaapi_driver.ObjectTable.{max_capacity, make_id, decode_id}

pub make_id_sum :
    (generation index : ℕ)
    → generation < 2 ^ 16
    → index < max_capacity
    → make_id generation index ≡ generation * 2 ^ 15 + index
unfolding make_id
make_id_sum generation index g i =
    let e : generation * 2 ^ 15 % 2 ^ 32 ≡ generation * 2 ^ 15 = omega arith in
    rw (e, bit_or_high 15 generation index i)

-- decodeId takes apart exactly what makeId put together, and the id is neither 0 nor VA_INVALID_ID.
pub decode_id-make_id :
    (generation index : ℕ)
    → 0 < generation
    → generation < 2 ^ 16
    → index < max_capacity
    → (decode_id (make_id generation index) ≡ (true, generation, index))
      × (0 < make_id generation index)
      × (make_id generation index < 2 ^ 31)
unfolding decode_id
decode_id-make_id generation index p g i =
    let id = make_id generation index in
    let sum : id ≡ generation * 2 ^ 15 + index = make_id_sum generation index g i in
    let high : bit_and (id / 2 ^ 15) (2 ^ 16 - 1) % 2 ^ 16 ≡ generation =
      omega (arith, bit_and_low_mask (id / 2 ^ 15) 16) in
    let low : bit_and id (2 ^ 15 - 1) ≡ index = omega (arith, bit_and_low_mask id 15) in
    (rw (high, low) (ground arith), omega arith, omega arith)

-- Whatever id a client sends, the decoded index is below the largest capacity.
pub decode_id-index_lt : (id : ℕ) → (decode_id id).2 < max_capacity
unfolding decode_id
decode_id-index_lt id = omega (arith, bit_and_low_mask id 15)

pub make_id-injective :
    (g h i j : ℕ)
    → g < 2 ^ 16
    → h < 2 ^ 16
    → i < max_capacity
    → j < max_capacity
    → make_id g i ≡ make_id h j
    → (g ≡ h) × (i ≡ j)
make_id-injective g h i j a b c d e = omega (arith, make_id_sum g i a c, make_id_sum h j b d)

-- The id read by division: bit 31 takes no part.
pub decode_id_lem :
    (id : ℕ) → decode_id id ≡ (not (id / 2 ^ 15 % 2 ^ 16 == 0), id / 2 ^ 15 % 2 ^ 16, id % 2 ^ 15)
unfolding decode_id
decode_id_lem id =
    rw (bit_and_low_mask (id / 2 ^ 15) 16, bit_and_low_mask id 15, mod-mod (id / 2 ^ 15) (2 ^ 16))

-- Generation and index make up the low 31 bits.
pub id_parts : (id : ℕ) → id % 2 ^ 31 ≡ id / 2 ^ 15 % 2 ^ 16 * 2 ^ 15 + id % 2 ^ 15
id_parts id = omega arith
