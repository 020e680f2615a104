-- ===== src/PictureOwners/Tests.antt =====
-- A decode context with two surfaces, and a run of the operations on it.
use nvidia_vaapi_driver.Prelude.{ℕ, ◌≡◌, refl, none, some, true, false, arith, ◌==◌, if◌then◌else◌}
use nvidia_vaapi_driver.PictureOwners.{
  Surface, DecodeContext, Driver, Assignment, va_invalid_id, take_index, recycle, begin_index,
  assign_surface_picture_index, busy_mask, release_context_picture_indices,
}
use nvidia_vaapi_driver.Codec.PictureIndex.{
  select_picture_index, available_mask, limit_mask, first_available,
}
use nvidia_vaapi_driver.PictureOwners.Links.{Serving, IsLinked}
use nvidia_vaapi_driver.PictureOwners.Teardown.{TornDown, release_context-TornDown}
use nvidia_vaapi_driver.PictureOwners.Choice.{Assigned, begin_index-Assigned}
use nvidia_vaapi_driver.PictureOwners.Waiting.{Occupied, assign-waits}
use nvidia_vaapi_driver.PictureOwners.Runs.{Reach, Step, Reach-IsLinked}

abbrev new_surface : Surface
new_surface = record {
  context = none;
  context_id = va_invalid_id;
  picture_index = none;
  resolving = false;
}

abbrev new_context : DecodeContext
new_context = record {
  id = 7;
  destroying = false;
  mutex_initialized = true;
  is_av1 = false;
  owners = λ i. none;
  active_reference_mask = 0;
  building_reference_mask = 0;
  current_picture_id = 0;
  recycle_cursor = 0;
}

-- Context 1 has the id 7; surfaces 0 and 1 stand in the first two slots.
abbrev start : Driver
start = record {
  contexts = λ c. new_context;
  surfaces = λ s. new_surface;
  context_of_id = λ id. if id == 7 then some 1 else none;
  surface_of_id = λ id. if id == 8 then some 0 else none;
  capacity = 2;
  surface_at = λ i. some i;
}

start-Serving : Serving start 1
start-Serving = record { live = refl; staying = refl; locked = refl }

-- Surface 0 has index 0 of context 1, then surface 1 has index 1, then surface 2 takes index 0.
abbrev begun : Driver
begun = take_index start 1 0 0 1 2

abbrev begun_again : Driver
begun_again = take_index begun 1 1 1 2 2

abbrev recycled : Driver
recycled = take_index (recycle begun_again 2 0 (some 0)) 1 2 0 2 2

begun-Serving : Serving begun_again 1
begun-Serving = record { live = refl; staying = refl; locked = refl }

start-begin : begin_index start 1 0 2 ≡ Assignment.assigned 0 begun
unfolding begin_index assign_surface_picture_index select_picture_index
start-begin = refl

begun-begin : begin_index begun 1 1 2 ≡ Assignment.assigned 1 begun_again
unfolding begin_index assign_surface_picture_index select_picture_index
begun-begin = refl

full-begin : begin_index begun_again 1 2 2 ≡ Assignment.assigned 0 recycled
unfolding begin_index assign_surface_picture_index busy_mask select_picture_index available_mask
    limit_mask first_available
full-begin = refl

abbrev run : Reach start begun_again
run =
    Reach.next
      (Reach.next Reach.here (Step.begin 1 0 2 0 begun start-Serving (omega arith) start-begin))
      (Step.begin 1 1 2 1 begun_again (record { live = refl; staying = refl; locked = refl })
        (omega arith) begun-begin)

Reach-IsLinked_example : IsLinked begun_again
Reach-IsLinked_example = Reach-IsLinked start begun_again (λ c i. refl) run

begun-IsLinked : IsLinked begun_again
begun-IsLinked = Reach-IsLinked start begun_again (λ c i. refl) run

begin_index-Assigned_example : Assigned begun_again 1 2 2 0 recycled
begin_index-Assigned_example =
    begin_index-Assigned begun_again 1 2 2 0 recycled begun-IsLinked begun-Serving refl
      (omega arith) full-begin

release_context-TornDown_example :
    TornDown begun_again 1 (release_context_picture_indices begun_again (some 1))
release_context-TornDown_example = release_context-TornDown begun_again 1 refl

-- Surface 0 is being resolved, and there is one index.
abbrev busy : Driver
busy = record (take_index start 1 0 0 1 1) {
  surfaces = λ s.
      if s == 0
      then record { context = some 1; context_id = 7; picture_index = some 0; resolving = true }
      else new_surface;
}

busy-begin : assign_surface_picture_index busy 1 1 1 ≡ Assignment.waits_for 0
unfolding assign_surface_picture_index busy_mask select_picture_index available_mask limit_mask
    first_available
busy-begin = refl

assign-waits_example : (i : ℕ) × Occupied busy 1 1 i 0
assign-waits_example = assign-waits busy 1 1 1 0 (omega arith) busy-begin
