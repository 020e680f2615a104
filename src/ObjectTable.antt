-- ===== src/ObjectTable.antt =====
-- The table of VA objects of src/object-table.c: slots with generations and a FIFO of free slots.
-- `slots` is the array that `table->slots` points at, read below `capacity` only
-- (`ObjectTable.Invariant`). Whether `realloc` and `calloc` succeed are arguments. An object is a
-- value: nothing writes its `id` and `type` after it is made. The lock is the caller's.
pub mod Ids
pub mod FreeList
pub mod Invariant
pub mod Steps
pub mod Lookup
pub mod Allocate
pub mod Pigeonhole
pub mod Remove
pub mod Stale
mod Tests
use nvidia_vaapi_driver.Prelude.{
  ℕ, zero, suc, ◌+◌, ◌-◌, ◌*◌, ◌/◌, ◌%◌, ◌^◌, Option, none, some, Bool, true, false, ◌||◌, ◌&&◌,
  not, ltb, leb, ◌==◌, if◌then◌else◌, size_max, uint32_max, add32,
}
use Prim.Native.Nat.{bit_and, bit_or}
use nvidia_vaapi_driver.AppendableBuffer.{is_null}

-- `obj` is the zeroed storage behind the header, by its size; `none` is NULL.
pub record Object : Type 0 where
  pub id : ℕ
  pub kind : ℕ
  pub obj : Option ℕ

pub record Slot : Type 0 where
  pub object : Option Object
  pub next_free : ℕ
  pub generation : ℕ

pub record ObjectTable : Type 0 where
  pub slots : ℕ → Slot
  pub capacity : ℕ
  pub free_head : ℕ
  pub free_tail : ℕ
  pub live_count : ℕ

abbrev pub slot_none : ℕ
slot_none = uint32_max

abbrev pub index_bits : ℕ
index_bits = 15

abbrev pub max_capacity : ℕ
max_capacity = 2 ^ index_bits

abbrev pub initial_capacity : ℕ
initial_capacity = 4096

-- `sizeof(NVDObject)` on x86-64: the storage starts at the alignment of `max_align_t`.
abbrev pub object_header_size : ℕ
object_header_size = 16

pub make_id : ℕ → ℕ → ℕ
make_id generation index = bit_or (generation * 2 ^ index_bits % 2 ^ 32) index

-- The generation and the index; the generation 0 is refused.
pub decode_id : ℕ → Bool × ℕ × ℕ
decode_id id =
    let generation = bit_and (id / 2 ^ index_bits) (2 ^ 16 - 1) % 2 ^ 16 in
    (not (generation == 0), generation, bit_and id (2 ^ index_bits - 1))

abbrev pub write : (ℕ → Slot) → ℕ → Slot → ℕ → Slot
write slots i v j = if i == j then v else slots j

abbrev zero_slot : Slot
zero_slot = record { object = none; next_free = 0; generation = 0 }

-- The slots of a table without memory; nothing reads them.
pub init : ObjectTable
init = record {
  slots = λ _. zero_slot;
  capacity = 0;
  free_head = slot_none;
  free_tail = slot_none;
  live_count = 0;
}

-- `memset` and the loop over `i < newCapacity`, with the number of rounds left.
pub fresh_slots : ℕ → ℕ → ℕ → (ℕ → Slot) → ℕ → Slot
fresh_slots zero i new_capacity slots = slots
fresh_slots (suc rounds) i new_capacity slots = fresh_slots rounds (i + 1) new_capacity (
    write slots i (record {
      object = none;
      next_free = if ltb (add32 i 1) new_capacity then add32 i 1 else slot_none;
      generation = 1;
    }))

abbrev pub set_next : (ℕ → Slot) → ℕ → ℕ → ℕ → Slot
set_next slots i next = write slots i (record (slots i) { next_free = next })

abbrev pub grown_capacity : ℕ → ℕ
grown_capacity capacity =
    let doubled = if capacity == 0 then initial_capacity else capacity * 2 % 2 ^ 32 in
    if ltb max_capacity doubled then max_capacity else doubled

-- `realloc_ok`: whether `realloc` returns memory.
pub grow_table : Bool → ObjectTable → Bool × ObjectTable
unfolding fresh_slots
grow_table realloc_ok t =
    if leb max_capacity t.capacity || not realloc_ok
    then (false, t)
    else let new_capacity = grown_capacity t.capacity in
      let slots = fresh_slots (new_capacity - t.capacity) t.capacity new_capacity t.slots in
      let empty = t.free_tail == slot_none in
      (
        true,
        record t {
          slots = if empty then slots else set_next slots t.free_tail t.capacity;
          free_head = if empty then t.capacity else t.free_head;
          free_tail = new_capacity - 1;
          capacity = new_capacity;
        },
      )

-- The end of the free list: the last lines of nvdObjectTableRemove and of a failed allocation.
abbrev pub push_free : ObjectTable → ℕ → ObjectTable
push_free t index =
    let slots = set_next t.slots index slot_none in
    let empty = t.free_tail == slot_none in
    record t {
      slots = if empty then slots else set_next slots t.free_tail index;
      free_head = if empty then index else t.free_head;
      free_tail = index;
    }

-- The head of the free list taken off.
abbrev pub pop_free : ObjectTable → ObjectTable
pop_free t =
    let next = (t.slots t.free_head).next_free in
    record t { free_head = next; free_tail = if next == slot_none then slot_none else t.free_tail }

-- From a table with a free slot. `calloc_ok`: whether `calloc` returns memory.
pub take_slot : Bool → ObjectTable → ℕ → ℕ → Option Object × ObjectTable
take_slot calloc_ok t kind payload_size =
    let index = t.free_head in
    let popped = pop_free t in
    let slot = t.slots index in
    let object : Object = record {
      id = make_id slot.generation index;
      kind = kind;
      obj = if payload_size == 0 then none else some payload_size;
    } in
    if not calloc_ok then (none, push_free popped index) else (
      some object,
      record popped {
        slots =
            write popped.slots index (record slot { object = some object; next_free = slot_none });
        live_count = add32 t.live_count 1;
      },
    )

after_growth : Bool → ℕ → ℕ → Bool × ObjectTable → Option Object × ObjectTable
after_growth calloc_ok kind payload_size (false, t) = (none, t)
after_growth calloc_ok kind payload_size (true, t) = take_slot calloc_ok t kind payload_size

pub allocate : Bool → Bool → ObjectTable → ℕ → ℕ → Option Object × ObjectTable
unfolding after_growth
allocate realloc_ok calloc_ok t kind payload_size =
    if leb 7 kind || ltb (size_max - object_header_size) payload_size
    then (none, t)
    else if t.free_head == slot_none
    then after_growth calloc_ok kind payload_size (grow_table realloc_ok t)
    else take_slot calloc_ok t kind payload_size

-- The object of a slot whose generation is the wanted one.
abbrev pub occupant : Slot → ℕ → Option Object
occupant slot generation = if slot.generation == generation then slot.object else none

abbrev pub of_kind : ℕ → Option Object → Option Object
of_kind kind none = none
of_kind kind (some o) = if o.kind == kind then some o else none

pub get : ObjectTable → ℕ → ℕ → Option Object
get t kind id =
    let (fine, generation, index) = decode_id id in
    if not fine || leb t.capacity index
    then none
    else of_kind kind (occupant (t.slots index) generation)

-- `slot->generation++` on `uint16_t`, past zero.
abbrev pub next_generation : ℕ → ℕ
next_generation g = let n = (g + 1) % 2 ^ 16 in if n == 0 then 1 else n

pub remove_from : ObjectTable → ℕ → Option Object → Option Object × ObjectTable
remove_from t index none = (none, t)
remove_from t index (some object) =
    let slot = t.slots index in
    let cleared = record t {
      slots =
          write t.slots index
            (record slot { object = none; generation = next_generation slot.generation });
    } in
    (
      some object,
      record (push_free cleared index) { live_count = (t.live_count + 2 ^ 32 - 1) % 2 ^ 32 },
    )

pub remove : ObjectTable → ℕ → Option Object × ObjectTable
unfolding remove_from
remove t id =
    let (fine, generation, index) = decode_id id in
    if not fine || leb t.capacity index
    then (none, t)
    else remove_from t index (occupant (t.slots index) generation)

pub remove_typed : ObjectTable → ℕ → ℕ → Option Object × ObjectTable
remove_typed t kind id = if is_null (get t kind id) then (none, t) else remove t id

-- nvdObjectTableAt
pub object_at : ObjectTable → ℕ → Option Object
object_at t index = if ltb index t.capacity then (t.slots index).object else none

-- nvdObjectTableDestroy frees the objects and the slots; the table is as new.
pub destroy : ObjectTable → ObjectTable
unfolding init
destroy t = init
