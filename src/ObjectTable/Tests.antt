-- ===== src/ObjectTable/Tests.antt =====
-- The theorems of ObjectTable on a table that holds one object.
use nvidia_vaapi_driver.Prelude.{
  ℕ, zero, suc, ◌*◌, ◌^◌, ◌<◌, ◌≡◌, ◌==◌, if◌then◌else◌, refl, none, some, List, [], ◌∷◌, true,
  arith,
}
use nvidia_vaapi_driver.ObjectTable.{
  Object, ObjectTable, slot_none, init, allocate, remove, make_id, decode_id,
}
use nvidia_vaapi_driver.ObjectTable.FreeList.{contains}
use nvidia_vaapi_driver.ObjectTable.Ids.{decode_id-make_id}
use nvidia_vaapi_driver.ObjectTable.Invariant.{Models, IsValid, init-Models}
use nvidia_vaapi_driver.ObjectTable.Lookup.{found}
use nvidia_vaapi_driver.ObjectTable.Allocate.{Allocated, allocate-Allocated}
use nvidia_vaapi_driver.ObjectTable.Remove.{Removed, remove-Removed}
use nvidia_vaapi_driver.ObjectTable.Stale.{Call, allocation, run, removals, found-run}

-- A table of two slots: an image in slot 0 in its third generation, slot 1 free.
abbrev image : Object
image = record { id = 3 * 2 ^ 15; kind = 4; obj = some 64 }

abbrev sample : ObjectTable
sample = record {
  slots = λ i.
      if i == 0
      then record { object = some image; next_free = slot_none; generation = 3 }
      else record { object = none; next_free = slot_none; generation = 1 };
  capacity = 2;
  free_head = 1;
  free_tail = 1;
  live_count = 1;
}

labels :
    (i : ℕ) (o : Object)
    → i < sample.capacity
    → (sample.slots i).object ≡ some o
    → (o.id ≡ make_id (sample.slots i).generation i) × (o.kind < 7)
unfolding make_id
labels zero o h e = let same : image ≡ o = cc in rw (← same) (refl, omega arith)
labels (suc i) o h e = ground arith

sample-Models : Models sample (1 ∷ [])
unfolding contains
sample-Models = record {
  bounded = omega arith;
  links = (refl, omega arith, refl);
  tail = refl;
  inside = λ i h. ground arith;
  distinct = (refl, tt);
  vacant = λ i h. ground arith;
  labelled = labels;
  generations = λ i h. ground arith;
  counted = refl;
}

init-IsValid : IsValid init
init-IsValid = ([], init-Models)

decode_id-make_id_example :
    (decode_id (make_id 5 9) ≡ (true, 5, 9)) × (0 < make_id 5 9) × (make_id 5 9 < 2 ^ 31)
decode_id-make_id_example = decode_id-make_id 5 9 (omega arith) (omega arith) (omega arith)

allocate-Allocated_example : Allocated init 2 (allocate true true init 2 48)
allocate-Allocated_example = allocate-Allocated true true init 2 48 init-IsValid

remove-Removed_example : Removed sample (1 ∷ []) (3 * 2 ^ 15) (remove sample (3 * 2 ^ 15))
remove-Removed_example = remove-Removed sample (1 ∷ []) (3 * 2 ^ 15) sample-Models

abbrev later_calls : List Call
later_calls = allocation true true 2 48 ∷ allocation true true 1 0 ∷ []

found-run_example : found (run (remove sample (3 * 2 ^ 15)).1 later_calls) (3 * 2 ^ 15) ≡ none
found-run_example =
    found-run sample (3 * 2 ^ 15) image later_calls (1 ∷ [], sample-Models) (unfold found in refl)
      (unfold removals in omega arith)
