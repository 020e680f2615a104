-- ===== src/ResolveQueue/Runs.antt =====
-- The queue against its specification: a list that holds sixteen items, closed for ever by
-- shutdown or cancel.
use nvidia_vaapi_driver.Prelude.{
  ℕ, ◌-◌, ◌≡◌, refl, Option, none, some, List, [], ◌∷◌, ◌++◌, map, Bool, true, false, ltb, ◌==◌,
  if◌then◌else◌, length, take, take_all, tests, min, arith, inl, inr, ◌∙◌, Bool-cases,
}
use nvidia_vaapi_driver.ResolveQueue.{
  ResolveQueue, queue_capacity, push, pop, init, shutdown, cancel, count_out, enqueue, dequeue,
  drain,
}
use nvidia_vaapi_driver.ResolveQueue.Refine.{
  Holds, Window, Window-dequeue, enqueue-Holds, drain-Drained,
}

pub record BoundedQueue : Type 0 where
  pub pending : List ℕ
  pub closed : Bool

pub data Call : Type 0 where
  push_call : ℕ → Call
  pop_call shutdown_call : Call
  cancel_call : ℕ → Call

-- What a call answers; `waits` is a call that would wait and is given up.
pub data Answer : Type 0 where
  waits done : Answer
  pushed : Bool → Answer
  popped : Option (Option ℕ) → Answer
  cancelled : ℕ → List (Option ℕ) → Answer

abbrev pub answer_push : ResolveQueue → Option (Bool × ResolveQueue) → Answer × ResolveQueue
answer_push q none = (waits, q)
answer_push q (some r) = (pushed r.0, r.1)

abbrev pub answer_pop :
    ResolveQueue → Option (Option (Option ℕ) × ResolveQueue) → Answer × ResolveQueue
answer_pop q none = (waits, q)
answer_pop q (some r) = (popped r.0, r.1)

unfoldable pub call : Call → ResolveQueue → Answer × ResolveQueue
call (push_call item) q = answer_push q (push q item)
call pop_call q = answer_pop q (pop q)
call shutdown_call q = (done, shutdown q)
call (cancel_call capacity) q =
    let (returned, items, q') = cancel q capacity in (cancelled returned items, q')

promise_pop : List ℕ → BoundedQueue → Answer × BoundedQueue
promise_pop [] a = if a.closed then (popped none, a) else (waits, a)
promise_pop (item ∷ rest) a = (popped (some (some item)), record a { pending = rest })

-- The specification.
pub promise : Call → BoundedQueue → Answer × BoundedQueue
unfolding promise_pop
promise (push_call item) a =
    if a.closed
    then (pushed false, a)
    else if length a.pending == queue_capacity
    then (waits, a)
    else (pushed true, record a { pending = a.pending ++ item ∷ [] })
promise pop_call a = promise_pop a.pending a
promise shutdown_call a = (done, record a { closed = true })
promise (cancel_call capacity) a = (
  cancelled (min (length a.pending) capacity) (map some (take capacity a.pending)),
  record { pending = []; closed = true },
)

pub record Refines (q : ResolveQueue) (a : BoundedQueue) : Type 0 where
  pub holds : Holds q a.pending
  pub same_end : q.exiting ≡ a.closed
  pub usable : q.initialized ≡ true

-- `r` answers as the specification does and refines its state.
pub record Agrees (r : Answer × ResolveQueue) (s : Answer × BoundedQueue) : Type 0 where
  pub answers : r.0 ≡ s.0
  pub refined : Refines r.1 s.1

push-Agrees :
    (item : ℕ) (q : ResolveQueue) (pending : List ℕ) (closed : Bool)
    → let a : BoundedQueue = record { pending = pending; closed = closed } in
      Refines q a → Agrees (call (push_call item) q) (promise (push_call item) a)
unfolding call promise push
push-Agrees item q pending true h =
    let closed = h.same_end in
    let refused : push q item ≡ some (false, q) = ground arith in
    rw refused (record { answers = refl; refined = h })
push-Agrees item q pending false h =
    let counted = h.holds.counted in
    let fits = h.holds.fits in
    let running = h.same_end in
    elim (Bool-cases (length pending == queue_capacity)) [
      | inl f ↦
          let full : push q item ≡ none = ground arith in
          rw (full, f) (record { answers = refl; refined = h })
      | inr f ↦
          let stored : push q item ≡ some (true, enqueue q item) = ground arith in
          rw (stored, f)
            (record {
              answers = refl;
              refined = record {
                holds = enqueue-Holds q pending item h.holds (ground arith);
                same_end = h.same_end;
                usable = h.usable;
              };
            })
    ]

pop-Agrees :
    (pending : List ℕ) (q : ResolveQueue) (closed : Bool)
    → let a : BoundedQueue = record { pending = pending; closed = closed } in
      Refines q a → Agrees (call pop_call q) (promise pop_call a)
unfolding call promise pop promise_pop
pop-Agrees [] q true h =
    let counted = h.holds.counted in
    let ended = h.same_end in
    let empty : pop q ≡ some (none, q) = ground arith in
    rw empty (record { answers = refl; refined = h })
pop-Agrees [] q false h =
    let counted = h.holds.counted in
    let running = h.same_end in
    let empty : pop q ≡ none = ground arith in rw empty (record { answers = refl; refined = h })
pop-Agrees (item ∷ rest) q closed h =
    let counted = h.holds.counted in
    let fits = h.holds.fits in
    let reading = h.holds.reading in
    let writing = h.holds.writing in
    let first : q.items q.read_idx ≡ some item = (unfold Window in h.holds.window.0) in
    let q' = record (dequeue q) { count = q.count - 1; telemetry = count_out q.telemetry 1 } in
    let taken : pop q ≡ some (some (q.items q.read_idx), q') = ground arith in
    rw (taken, first)
      (record {
        answers = refl;
        refined = record {
          holds = record {
            counted = omega arith;
            fits = omega arith;
            reading = omega arith;
            writing = omega arith;
            window = Window-dequeue q item rest reading (omega arith) h.holds.window;
          };
          same_end = h.same_end;
          usable = h.usable;
        };
      })

shutdown-Agrees :
    (q : ResolveQueue) (a : BoundedQueue)
    → Refines q a
    → Agrees (call shutdown_call q) (promise shutdown_call a)
unfolding call promise shutdown
shutdown-Agrees q a h =
    let usable = h.usable in
    let ended : shutdown q ≡ record q { exiting = true } = ground arith in
    rw ended (record {
      answers = refl;
      refined = record {
        holds = record {
          counted = h.holds.counted;
          fits = h.holds.fits;
          reading = h.holds.reading;
          writing = h.holds.writing;
          window = h.holds.window;
        };
        same_end = refl;
        usable = h.usable;
      };
    })

min_lem : (n capacity : ℕ) → (if ltb n capacity then n else capacity) ≡ min n capacity
min_lem n capacity = ground arith

take-min_length :
    (xs : List ℕ) (capacity : ℕ)
    → take (if ltb (length xs) capacity then length xs else capacity) xs ≡ take capacity xs
take-min_length xs capacity = elim (Bool-cases (ltb (length xs) capacity)) [
  | inl e ↦ rw (e, take_all (length xs) xs (omega arith), take_all capacity xs (omega tests))
  | inr e ↦ rw e
]

-- The queue that resolveQueueCancel makes of what its loop leaves.
abbrev emptied : ℕ → ResolveQueue → ResolveQueue
emptied pending q = record q {
  count = 0;
  write_idx = q.read_idx;
  telemetry = if pending == 0 then q.telemetry else count_out q.telemetry pending;
}

cancel_lem :
    (capacity : ℕ) (q : ResolveQueue)
    → q.initialized ≡ true
    → let returned = if ltb q.count capacity then q.count else capacity in
      let r = drain q.count 0 returned (record q { exiting = true }) in
      cancel q capacity ≡ (returned, r.0, emptied q.count r.1)
unfolding cancel
cancel_lem capacity q usable = rw usable

cancel-Agrees :
    (capacity : ℕ) (q : ResolveQueue) (a : BoundedQueue)
    → Refines q a
    → Agrees (call (cancel_call capacity) q) (promise (cancel_call capacity) a)
unfolding call promise
cancel-Agrees capacity q a h =
    let pending = length a.pending in
    let returned = if ltb pending capacity then pending else capacity in
    let q' = record q { count = pending; exiting = true } in
    let counted = h.holds.counted in
    let d = drain-Drained a.pending returned 0 q' h.holds.reading (ground arith) h.holds.window in
    rw (cancel_lem capacity q h.usable, counted)
      (record {
        answers =
            let whole : returned - 0 ≡ returned = omega arith in
            rw (d.listed, whole, take-min_length a.pending capacity, min_lem pending capacity);
        refined = record {
          holds = record {
            counted = refl;
            fits = omega arith;
            reading = d.ended;
            writing = let ended = d.ended in omega arith;
            window = (unfold Window in tt);
          };
          same_end = d.still_closed;
          usable = d.still_initialized ∙ h.usable;
        };
      })

call-Agrees :
    (c : Call) (q : ResolveQueue) (a : BoundedQueue) → Refines q a → Agrees (call c q) (promise c a)
call-Agrees (push_call item) q a h = push-Agrees item q a.pending a.closed h
call-Agrees pop_call q a h = pop-Agrees a.pending q a.closed h
call-Agrees shutdown_call q a h = shutdown-Agrees q a h
call-Agrees (cancel_call capacity) q a h = cancel-Agrees capacity q a h

-- The answers to a sequence of calls, whatever threads make them, and the queue at the end.
unfoldable pub run : List Call → ResolveQueue → List Answer × ResolveQueue
run [] q = ([], q)
run (c ∷ cs) q =
    let (answer, q') = call c q in let (answers, q'') = run cs q' in (answer ∷ answers, q'')

pub promised : List Call → BoundedQueue → List Answer × BoundedQueue
promised [] a = ([], a)
promised (c ∷ cs) a =
    let (answer, a') = promise c a in let (answers, a'') = promised cs a' in (answer ∷ answers, a'')

-- A run of the code against the same run of the specification.
pub record Simulates (r : List Answer × ResolveQueue) (s : List Answer × BoundedQueue)
    : Type 0 where
  pub same_answers : r.0 ≡ s.0
  pub same_items : Refines r.1 s.1

run-Simulates_from :
    (cs : List Call) (q : ResolveQueue) (a : BoundedQueue)
    → Refines q a
    → Simulates (run cs q) (promised cs a)
unfolding run promised
run-Simulates_from [] q a h = record { same_answers = refl; same_items = h }
run-Simulates_from (c ∷ cs) q a h =
    let first = call-Agrees c q a h in
    let rest = run-Simulates_from cs (call c q).1 (promise c a).1 first.refined in
    record { same_answers = rw (first.answers, rest.same_answers); same_items = rest.same_items }

abbrev pub empty_queue : BoundedQueue
empty_queue = record { pending = []; closed = false }

init-Refines : Refines (init true true true).1 empty_queue
unfolding init
init-Refines = record {
  holds = record {
    counted = refl;
    fits = omega arith;
    reading = omega arith;
    writing = refl;
    window = (unfold Window in tt);
  };
  same_end = refl;
  usable = refl;
}

-- From a queue that resolveQueueInit has set up, any sequence of resolveQueuePush,
-- resolveQueuePop, resolveQueueShutdown and resolveQueueCancel gives the answers of a queue of at
-- most sixteen items in the order of their arrival: a push waits exactly while it is full and is
-- refused after the end, a pop waits exactly while it is empty and not ended and drains what was
-- accepted before the end, and a cancel returns the oldest items in their order.
pub run-Simulates :
    (cs : List Call) → Simulates (run cs (init true true true).1) (promised cs empty_queue)
run-Simulates cs = run-Simulates_from cs (init true true true).1 empty_queue init-Refines
