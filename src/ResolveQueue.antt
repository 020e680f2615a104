-- ===== src/ResolveQueue.antt =====
-- src/resolve-queue.c: the bounded queue between decoding and resolving.
-- Each function is one step under the queue's mutex. A wait on a condition variable ends the step
-- with `none`, to be tried again after another call; `note_full_wait` is the count of such a wait,
-- `note_wait_time` that of its length. An item is the value of a pointer. Whether the
-- initialisations of pthread succeed are arguments; mutex and conditions themselves have no state.
-- A telemetry counter that may be absent is an `Option`; the counters are 64 bits wide.
pub mod Refine
pub mod Runs
mod Tests
use nvidia_vaapi_driver.Prelude.{
  ℕ, zero, suc, ◌+◌, ◌-◌, ◌%◌, ◌^◌, Option, none, some, List, [], ◌∷◌, ◌++◌, Bool, true, false,
  ◌||◌, ◌&&◌, not, ltb, ◌==◌, if◌then◌else◌,
}

-- `RESOLVE_QUEUE_CAPACITY`
abbrev pub queue_capacity : ℕ
queue_capacity = 16

pub record Telemetry : Type 0 where
  pub depth : Option ℕ
  pub high_water : Option ℕ
  pub full_waits : Option ℕ
  pub wait_ns : Option ℕ

pub record ResolveQueue : Type 0 where
  pub items : ℕ → Option ℕ
  pub read_idx : ℕ
  pub write_idx : ℕ
  pub count : ℕ
  pub high_water : ℕ
  pub exiting : Bool
  pub initialized : Bool
  pub telemetry : Telemetry

abbrev pub store : (ℕ → Option ℕ) → ℕ → Option ℕ → ℕ → Option ℕ
store items i item j = if i == j then item else items j

-- `atomic_fetch_add` and `atomic_fetch_sub`
abbrev add_to : Option ℕ → ℕ → Option ℕ
add_to none n = none
add_to (some c) n = some ((c + n) % 2 ^ 64)

abbrev subtract_from : Option ℕ → ℕ → Option ℕ
subtract_from none n = none
subtract_from (some c) n = some ((c + (2 ^ 64 - n)) % 2 ^ 64)

-- updateHighWater
abbrev pub update_high_water : Option ℕ → ℕ → Option ℕ
update_high_water none depth = none
update_high_water (some current) depth = some (if ltb current depth then depth else current)

abbrev no_telemetry : Telemetry
no_telemetry = record { depth = none; high_water = none; full_waits = none; wait_ns = none }

abbrev cleared : ResolveQueue
cleared = record {
  items = λ _. none;
  read_idx = 0;
  write_idx = 0;
  count = 0;
  high_water = 0;
  exiting = false;
  initialized = false;
  telemetry = no_telemetry;
}

pub init : Bool → Bool → Bool → Bool × ResolveQueue
init mutex_ok not_empty_ok not_full_ok =
    if mutex_ok && not_empty_ok && not_full_ok
    then (true, record cleared { initialized = true })
    else (false, cleared)

pub set_telemetry : ResolveQueue → Telemetry → ResolveQueue
set_telemetry q telemetry = record q { telemetry = telemetry }

-- The first round of the loop that waits for room.
pub note_full_wait : ResolveQueue → ResolveQueue
note_full_wait q = record q {
  telemetry = record (q.telemetry) { full_waits = add_to q.telemetry.full_waits 1 };
}

-- After such a wait, with what the clock said before and after.
pub note_wait_time : ResolveQueue → ℕ → ℕ → ResolveQueue
note_wait_time q wait_start wait_end =
    if not (wait_start == 0) && not (ltb wait_end wait_start)
    then record q {
      telemetry = record (q.telemetry) {
        wait_ns = add_to q.telemetry.wait_ns (wait_end - wait_start);
      };
    }
    else q

abbrev count_in : Telemetry → Telemetry
count_in t = elim t.depth [
  | none ↦ t
  | some c ↦ record t {
    depth = add_to t.depth 1;
    high_water = update_high_water t.high_water ((c + 1) % 2 ^ 64);
  }
]

abbrev pub count_out : Telemetry → ℕ → Telemetry
count_out t n = record t { depth = subtract_from t.depth n }

-- The lines that put the item in.
abbrev pub enqueue : ResolveQueue → ℕ → ResolveQueue
enqueue q item = record q {
  items = store q.items q.write_idx (some item);
  write_idx = (q.write_idx + 1) % queue_capacity;
  count = q.count + 1;
  high_water = if ltb q.high_water (q.count + 1) then q.count + 1 else q.high_water;
  telemetry = count_in q.telemetry;
}

-- resolveQueuePushTimed, from the test of its loop on; `now` is the clock. The answer, the time
-- stamp and the queue.
pub push_timed : ResolveQueue → ℕ → ℕ → Option (Bool × Option ℕ × ResolveQueue)
push_timed q item now =
    if q.count == queue_capacity && not q.exiting
    then none
    else if q.exiting
    then some (false, none, q)
    else some (true, some now, enqueue q item)

-- resolveQueuePush, which wants no time stamp.
pub push : ResolveQueue → ℕ → Option (Bool × ResolveQueue)
push q item =
    if q.count == queue_capacity && not q.exiting
    then none
    else if q.exiting
    then some (false, q)
    else some (true, enqueue q item)

-- The lines that take an item out.
abbrev pub dequeue : ResolveQueue → ResolveQueue
dequeue q = record q {
  items = store q.items q.read_idx none;
  read_idx = (q.read_idx + 1) % queue_capacity;
}

-- resolveQueuePop: false is an inner `none`.
pub pop : ResolveQueue → Option (Option (Option ℕ) × ResolveQueue)
pop q =
    if q.count == 0 && not q.exiting
    then none
    else if q.count == 0
    then some (none, q)
    else some (
      some (q.items q.read_idx),
      record (dequeue q) { count = q.count - 1; telemetry = count_out q.telemetry 1 },
    )

pub shutdown : ResolveQueue → ResolveQueue
shutdown q = if not q.initialized then q else record q { exiting = true }

-- The loop of resolveQueueCancel with the number of rounds left: what it stores in `cancelled`,
-- in order, and the queue.
pub drain : ℕ → ℕ → ℕ → ResolveQueue → List (Option ℕ) × ResolveQueue
drain zero i returned q = ([], q)
drain (suc rounds) i returned q =
    let item = q.items q.read_idx in
    let (later, q') = drain rounds (i + 1) returned (dequeue q) in
    (if ltb i returned then item ∷ later else later, q')

-- resolveQueueCancel with an array of `capacity` entries: the answer, the entries, the queue. With
-- NULL for the array the answer and the queue are the same, and the entries are written nowhere.
pub cancel : ResolveQueue → ℕ → ℕ × List (Option ℕ) × ResolveQueue
unfolding drain
cancel q capacity =
    if not q.initialized
    then (0, [], q)
    else let pending = q.count in
      let returned = if ltb pending capacity then pending else capacity in
      let (cancelled, q') = drain pending 0 returned (record q { exiting = true }) in
      (
        returned,
        cancelled,
        record q' {
          count = 0;
          write_idx = q'.read_idx;
          telemetry = if pending == 0 then q'.telemetry else count_out q'.telemetry pending;
        },
      )

pub destroy : ResolveQueue → ResolveQueue
destroy q = if not q.initialized then q else record q { initialized = false }
