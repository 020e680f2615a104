-- ===== src/PictureOwners.antt =====
-- The ownership of decode picture indices of src/vabackend.c: which surface of a context stands
-- behind each index of NVDEC. Pointers to contexts and surfaces are numbers. What the object table
-- finds for an id or a slot is part of the state; the operations here do not change it. Each
-- operation is one step, as the source runs it under the locks; logging is left out, and so are the
-- tests for a null driver.
pub mod Links
pub mod Ownership
pub mod Teardown
pub mod Assign
pub mod Busy
pub mod Choice
pub mod Waiting
pub mod Runs
mod Tests
use nvidia_vaapi_driver.Prelude.{
  ℕ, zero, suc, ◌+◌, ◌-◌, ◌%◌, ◌^◌, Option, none, some, Bool, true, false, ◌||◌, ◌&&◌, not, ltb,
  leb, ◌==◌, if◌then◌else◌,
}
use Prim.Native.Nat.{bit_and, bit_or}
use nvidia_vaapi_driver.Prelude.Bits.{complement}
use nvidia_vaapi_driver.Codec.PictureIndex.{max_decode_surfaces, select_picture_index}

abbrev pub va_invalid_id : ℕ
va_invalid_id = 2 ^ 32 - 1

-- The fields of `NVSurface` that the ownership is about; a `pictureIdx` of -1 is `none`.
pub record Surface : Type 0 where
  pub context : Option ℕ
  pub context_id : ℕ
  pub picture_index : Option ℕ
  pub resolving : Bool

-- The fields of `NVContext`; `is_av1` is the test of `cudaCodec`.
pub record DecodeContext : Type 0 where
  pub id : ℕ
  pub destroying : Bool
  pub mutex_initialized : Bool
  pub is_av1 : Bool
  pub owners : ℕ → Option ℕ
  pub active_reference_mask : ℕ
  pub building_reference_mask : ℕ
  pub current_picture_id : ℕ
  pub recycle_cursor : ℕ

pub record Driver : Type 0 where
  pub contexts : ℕ → DecodeContext
  pub surfaces : ℕ → Surface
  -- what nvdObjectTableGet finds for the id of a context and of a surface
  pub context_of_id : ℕ → Option ℕ
  pub surface_of_id : ℕ → Option ℕ
  -- the number of slots of the object table, and the surface in each of them
  pub capacity : ℕ
  pub surface_at : ℕ → Option ℕ

abbrev pub update {ℓ} : {A : Type ℓ} → (ℕ → A) → ℕ → A → ℕ → A
update f i a j = if i == j then a else f j

abbrev pub put_context : Driver → ℕ → DecodeContext → Driver
put_context d c x = record d { contexts = update d.contexts c x }

abbrev pub put_surface : Driver → ℕ → Surface → Driver
put_surface d s u = record d { surfaces = update d.surfaces s u }

-- Whether a pointer is the given one.
abbrev pub points_to : Option ℕ → ℕ → Bool
points_to none x = false
points_to (some y) x = y == x

abbrev pub context_is_live : Driver → Option ℕ → Bool
context_is_live d none = false
context_is_live d (some c) =
    let id = (d.contexts c).id in not (id == va_invalid_id) && points_to (d.context_of_id id) c

-- The two tests of pictureIdxFromSurfaceId, and the write to the mask; `i` is the index of the
-- surface.
abbrev pub is_foreign : Driver → ℕ → ℕ → ℕ → Bool
is_foreign d c s i =
    let x = d.contexts c in
    let u = d.surfaces s in
    not (context_is_live d (some c))
    || x.destroying
    || not (points_to u.context c)
    || not (u.context_id == x.id)
    || not x.mutex_initialized
    || leb max_decode_surfaces i

abbrev pub still_owned : Driver → ℕ → ℕ → ℕ → Bool
still_owned d c s i =
    let x = d.contexts c in
    let u = d.surfaces s in
    points_to u.context c
    && u.context_id == x.id
    && points_to u.picture_index i
    && points_to (x.owners i) s

abbrev pub mark_reference : Driver → ℕ → ℕ → Driver
mark_reference d c i =
    let x = d.contexts c in
    put_context d c
      (record x { building_reference_mask = bit_or x.building_reference_mask (2 ^ i) })

abbrev pub reference_index : Driver → ℕ → ℕ → Option ℕ → Option ℕ × Driver
reference_index d c s none = (none, d)
reference_index d c s (some i) =
    if is_foreign d c s i
    then (none, d)
    else if still_owned d c s i
    then (some i, (if (d.contexts c).is_av1 then d else mark_reference d c i))
    else (none, d)

abbrev pub found_reference : Driver → ℕ → Option ℕ → Option ℕ × Driver
found_reference d c none = (none, d)
found_reference d c (some s) = reference_index d c s (d.surfaces s).picture_index

-- pictureIdxFromSurfaceId; `none` is -1.
pub picture_idx_from_surface_id : Driver → Option ℕ → ℕ → Option ℕ × Driver
picture_idx_from_surface_id d none id = (none, d)
picture_idx_from_surface_id d (some c) id =
    if id == va_invalid_id then (none, d) else found_reference d c (d.surface_of_id id)

-- The three writes that take a surface out of its context.
abbrev pub detach : Driver → ℕ → Driver
detach d s =
    put_surface d s
      (record (d.surfaces s) { context = none; context_id = va_invalid_id; picture_index = none })

abbrev pub detach_from : Driver → ℕ → Option ℕ → Driver
detach_from d c none = d
detach_from d c (some s) = if points_to (d.surfaces s).context c then detach d s else d

-- The loop over the slots of the object table from `i` on.
pub detach_all : ℕ → ℕ → Driver → ℕ → Driver
detach_all zero i d c = d
detach_all (suc rounds) i d c = detach_all rounds (i + 1) (detach_from d c (d.surface_at i)) c

-- The loop over `pictureIndexOwners` from `i` on.
pub clear_owners : ℕ → ℕ → (ℕ → Option ℕ) → ℕ → Option ℕ
clear_owners zero i owners = owners
clear_owners (suc rounds) i owners = clear_owners rounds (i + 1) (update owners i none)

pub release_context_picture_indices : Driver → Option ℕ → Driver
release_context_picture_indices d none = d
release_context_picture_indices d (some c) =
    let e = detach_all d.capacity 0 d c in
    if not (d.contexts c).mutex_initialized
    then d
    else put_context e c (record (e.contexts c) {
      owners = clear_owners max_decode_surfaces 0 (e.contexts c).owners;
      active_reference_mask = 0;
      building_reference_mask = 0;
    })

-- The writes that give an index back.
abbrev pub give_up_index : Driver → ℕ → ℕ → Driver
give_up_index d c i =
    let x = d.contexts c in
    put_context d c (record x {
      owners = update x.owners i none;
      active_reference_mask = bit_and x.active_reference_mask (complement 32 (2 ^ i));
      building_reference_mask = bit_and x.building_reference_mask (complement 32 (2 ^ i));
    })

abbrev pub disown : Driver → ℕ → ℕ → Option ℕ → Driver
disown d c s none = d
disown d c s (some i) =
    if ltb i max_decode_surfaces && points_to ((d.contexts c).owners i) s
    then give_up_index d c i
    else d

-- The guard of releaseSurfacePictureIndex.
abbrev pub is_gone : Driver → ℕ → ℕ → Bool
is_gone d c s =
    let x = d.contexts c in
    not (context_is_live d (some c))
    || not (x.id == (d.surfaces s).context_id)
    || x.destroying
    || not x.mutex_initialized

abbrev pub release_from : Driver → ℕ → Option ℕ → Driver
release_from d s none = detach d s
release_from d s (some c) =
    if is_gone d c s then detach d s else detach (disown d c s (d.surfaces s).picture_index) s

pub release_surface_picture_index : Driver → Option ℕ → Driver
release_surface_picture_index d none = d
release_surface_picture_index d (some s) = release_from d s (d.surfaces s).context

abbrev pub is_resolving : Driver → Option ℕ → Bool
is_resolving d none = false
is_resolving d (some s) = (d.surfaces s).resolving

-- The loop that collects the owners being resolved, from index `i` on.
pub busy_mask : ℕ → ℕ → Driver → (ℕ → Option ℕ) → ℕ → ℕ
busy_mask zero i d owners mask = mask
busy_mask (suc rounds) i d owners mask =
    busy_mask rounds (i + 1) d owners
      (if is_resolving d (owners i) then bit_or mask (2 ^ i) else mask)

-- The answer of an assignment: -1, an index, or a wait for a surface to be resolved, after which
-- the loop starts again.
pub data Assignment : Type 0 where
  refused : Assignment
  assigned : ℕ → Driver → Assignment
  waits_for : ℕ → Assignment

-- The previous owner of `i` loses the index.
abbrev pub recycle : Driver → ℕ → ℕ → Option ℕ → Driver
recycle d s i none = d
recycle d s i (some p) =
    if not (p == s) && points_to (d.surfaces p).picture_index i
    then put_surface d p (record (d.surfaces p) { picture_index = none })
    else d

-- The writes that give index `i` of context `c` to the surface.
abbrev pub take_index : Driver → ℕ → ℕ → ℕ → ℕ → ℕ → Driver
take_index d c s i current limit =
    let x = d.contexts c in
    put_context
      (put_surface d s
        (record (d.surfaces s) { picture_index = some i; context = some c; context_id = x.id }))
      c
      (record x {
        owners = update x.owners i (some s);
        current_picture_id = current;
        recycle_cursor = (i + 1) % limit;
      })

abbrev pub wait_for : Option ℕ → Assignment
wait_for none = refused
wait_for (some s) = waits_for s

abbrev pub wait_at : (ℕ → Option ℕ) → Option ℕ → Assignment
wait_at owners none = refused
wait_at owners (some i) = wait_for (owners i)

abbrev pub assign_selected : Driver → ℕ → ℕ → ℕ → Option ℕ → Assignment
assign_selected d c s limit none =
    let x = d.contexts c in
    wait_at x.owners
      (select_picture_index x.current_picture_id limit x.active_reference_mask 0 x.recycle_cursor)
assign_selected d c s limit (some i) =
    let x = d.contexts c in
    let current =
      if i == x.current_picture_id then x.current_picture_id + 1 else x.current_picture_id in
    assigned i (take_index (recycle d s i (x.owners i)) c s i current limit)

-- The index that the surface already has, if it is below the limit and still its own.
abbrev pub existing_index : (ℕ → Option ℕ) → ℕ → ℕ → Option ℕ → Option ℕ
existing_index owners s limit none = none
existing_index owners s limit (some i) =
    if ltb i limit && points_to (owners i) s then some i else none

abbrev pub keep_or : Driver → Option ℕ → Assignment → Assignment
keep_or d none other = other
keep_or d (some i) other = assigned i d

-- The guards at the top of both functions that assign.
abbrev pub may_assign : DecodeContext → ℕ → Bool
may_assign x limit =
    not (limit == 0 || ltb max_decode_surfaces limit || not x.mutex_initialized) && not x.destroying

pub assign_surface_picture_index : Driver → ℕ → ℕ → ℕ → Assignment
assign_surface_picture_index d c s limit =
    let x = d.contexts c in
    let busy = busy_mask limit 0 d x.owners 0 in
    if not (may_assign x limit)
    then refused
    else keep_or d (existing_index x.owners s limit (d.surfaces s).picture_index) (
        assign_selected d c s limit (
          select_picture_index x.current_picture_id limit x.active_reference_mask busy
            x.recycle_cursor))

-- The loop of the AV1 variant: the first index without an owner, from the cursor on.
pub first_unowned : ℕ → ℕ → (ℕ → Option ℕ) → ℕ → ℕ → Option ℕ
first_unowned zero offset owners cursor limit = none
first_unowned (suc rounds) offset owners cursor limit =
    let candidate = (cursor + offset) % 2 ^ 32 % limit in
    let later = first_unowned rounds (offset + 1) owners cursor limit in
    elim (owners candidate) [ none ↦ some candidate | some s ↦ later ]

abbrev pub assign_unowned : Driver → ℕ → ℕ → ℕ → Option ℕ → Assignment
assign_unowned d c s limit none = refused
assign_unowned d c s limit (some i) =
    let x = d.contexts c in
    let current = if leb x.current_picture_id i then i + 1 else x.current_picture_id in
    assigned i (take_index d c s i current limit)

pub assign_av1_surface_picture_index : Driver → ℕ → ℕ → ℕ → Assignment
assign_av1_surface_picture_index d c s limit =
    let x = d.contexts c in
    if not (may_assign x limit)
    then refused
    else keep_or d (existing_index x.owners s limit (d.surfaces s).picture_index)
        (assign_unowned d c s limit (first_unowned limit 0 x.owners x.recycle_cursor limit))

-- The lines of nvBeginPicture that ask for an index, for a surface that has none.
pub begin_index : Driver → ℕ → ℕ → ℕ → Assignment
begin_index d c s limit = elim (d.surfaces s).picture_index [
  | none ↦
      if (d.contexts c).is_av1
      then assign_av1_surface_picture_index d c s limit
      else assign_surface_picture_index d c s limit
  | some i ↦ assigned i d
]
