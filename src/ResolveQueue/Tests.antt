-- ===== src/ResolveQueue/Tests.antt =====
-- The queue in a short run.
use nvidia_vaapi_driver.Prelude.{
  ◌≡◌, refl, none, some, List, [], ◌∷◌, true, false, if◌then◌else◌, ◌==◌,
}
use nvidia_vaapi_driver.ResolveQueue.{
  Telemetry, init, push, push_timed, pop, shutdown, cancel, drain, destroy, set_telemetry,
  note_full_wait, note_wait_time,
}
use nvidia_vaapi_driver.ResolveQueue.Runs.{
  Call, push_call, pop_call, shutdown_call, cancel_call, waits, done, pushed, popped, cancelled,
  run, call, promised, empty_queue, Simulates, run-Simulates,
}

abbrev calls : List Call
calls =
    pop_call
    ∷ push_call 5
    ∷ push_call 6
    ∷ push_call 7
    ∷ pop_call
    ∷ shutdown_call
    ∷ push_call 8
    ∷ pop_call
    ∷ cancel_call 4
    ∷ []

answers_run :
    (run calls (init true true true).1).0
    ≡ waits
      ∷ pushed true
      ∷ pushed true
      ∷ pushed true
      ∷ popped (some (some 5))
      ∷ done
      ∷ pushed false
      ∷ popped (some (some 6))
      ∷ cancelled 1 (some 7 ∷ [])
      ∷ []
unfolding run call init push pop shutdown cancel drain
answers_run = refl

run-Simulates_example : Simulates (run calls (init true true true).1) (promised calls empty_queue)
run-Simulates_example = run-Simulates calls

-- The counters over a wait of 30 ns and a push.
counters_run :
    let counters : Telemetry = record {
      depth = some 0;
      high_water = some 0;
      full_waits = some 0;
      wait_ns = some 0;
    } in
    let q =
      note_wait_time (note_full_wait (set_telemetry (init true true true).1 counters)) 10 40 in
    push_timed q 5 40
    ≡ some (
      true,
      some 40,
      record (init true true true).1 {
        items = (λ j. if 0 == j then some 5 else none);
        write_idx = 1;
        count = 1;
        high_water = 1;
        telemetry = record {
          depth = some 1;
          high_water = some 1;
          full_waits = some 1;
          wait_ns = some 30;
        };
      },
    )
unfolding init set_telemetry note_full_wait note_wait_time push_timed
counters_run = refl

destroyed_run : (destroy (init true true true).1).initialized ≡ false
unfolding init destroy
destroyed_run = refl
