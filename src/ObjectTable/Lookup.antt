-- ===== src/ObjectTable/Lookup.antt =====
-- src/object-table.c: which object an id stands for.
use nvidia_vaapi_driver.Prelude.{
  ℕ, ◌+◌, ◌/◌, ◌%◌, ◌^◌, ◌≡◌, Option, none, ◌||◌, leb, ◌==◌, if◌then◌else◌, arith,
}
use nvidia_vaapi_driver.ObjectTable.{
  Object, ObjectTable, occupant, of_kind, get, remove, remove_from,
}
use nvidia_vaapi_driver.ObjectTable.Ids.{decode_id_lem}

-- The object under an id, whatever its kind: the table as a map from ids.
unfoldable pub found : ObjectTable → ℕ → Option Object
found t id =
    let generation = id / 2 ^ 15 % 2 ^ 16 in
    if generation == 0 || leb t.capacity (id % 2 ^ 15)
    then none
    else occupant (t.slots (id % 2 ^ 15)) generation

pub get-found : (t : ObjectTable) (kind id : ℕ) → get t kind id ≡ of_kind kind (found t id)
unfolding get found
get-found t kind id = rw (decode_id_lem id) (ground arith)

pub remove-found :
    (t : ObjectTable) (id : ℕ) → remove t id ≡ remove_from t (id % 2 ^ 15) (found t id)
unfolding remove found remove_from
remove-found t id = rw (decode_id_lem id) (ground arith)

-- Bit 31 of an id is not looked at.
pub found_alias : (t : ObjectTable) (id : ℕ) → found t (id + 2 ^ 31) ≡ found t id
unfolding found
found_alias t id =
    let g : (id + 2 ^ 31) / 2 ^ 15 % 2 ^ 16 ≡ id / 2 ^ 15 % 2 ^ 16 = omega arith in
    let i : (id + 2 ^ 31) % 2 ^ 15 ≡ id % 2 ^ 15 = omega arith in rw (g, i)

-- Only objects, generations and the capacity matter to a lookup.
pub found_congr :
    (t u : ObjectTable) (id : ℕ)
    → u.capacity ≡ t.capacity
    → ((i : ℕ)
        → ((u.slots i).object ≡ (t.slots i).object)
          × ((u.slots i).generation ≡ (t.slots i).generation))
    → found u id ≡ found t id
unfolding found
found_congr t u id c same = ground (arith, same (id % 2 ^ 15))
