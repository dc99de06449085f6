-- ===== src/Bridge/Tests.antt =====
-- Runs of the bridge on concrete channels.
use prosody_rb.Base.{
  Bool, not, ◌==◌, ok, ◌+◌, ◌⊎◌, ℕ, ◌≡◌, refl, true, false, List, [], ◌∷◌, ◌++◌, arith, replicate,
}
use prosody_rb.Bridge.Calls.{Command, Replied, run_wrapped, reply_on, run_send, run_await}
use prosody_rb.Bridge.Live.{run-answered}
use prosody_rb.Bridge.Waits.{
  Any, Event, begins, resolves, pops, finish_wait, steps, no_waits, begin_wait, complete, resolve,
  extract, popped, step,
}
use prosody_rb.Bridge.Waits.Own.{wait_for-own}
use prosody_rb.Bridge.{
  send, blocked, done, ready, interrupted, crashed, Channel, Thread, run_all, returns, loop,
}
use prosody_rb.Bridge.Order.{InOrder, loop-InOrder}
use prosody_rb.Bridge.Drain.{abandoned, loop-abandoned}

-- A command writes its number to a log.
abbrev log : ℕ → List ℕ → List ℕ
log n l = l ++ (n ∷ [])

abbrev channel : Channel ℕ
channel = record { queue = 1 ∷ 2 ∷ []; connected = true }

abbrev thread : Thread ℕ (List ℕ)
thread = record {
  channel = channel;
  arrivals = (3 ∷ []) ∷ (4 ∷ 5 ∷ []) ∷ [];
  running = true;
  world = [];
}

-- An interrupted poll loses nothing: the next one runs what was sent.
loop_interrupted :
    (loop (returns log) (interrupted ∷ ready ∷ []) thread).world ≡ 1 ∷ 2 ∷ 3 ∷ 4 ∷ 5 ∷ []
unfolding loop
loop_interrupted = refl

-- The third command panics: it writes its number, and the rest of its batch is lost.
abbrev log_or_panic : ℕ → List ℕ → List ℕ × Bool
log_or_panic n l = (l ++ (n ∷ []), not (n == 3))

loop_panics : (loop log_or_panic (crashed ∷ ready ∷ ready ∷ []) thread).world ≡ 1 ∷ 2 ∷ 3 ∷ []
unfolding loop
loop_panics = refl

loop-InOrder_example :
    InOrder log_or_panic thread (loop log_or_panic (crashed ∷ ready ∷ interrupted ∷ []) thread)
loop-InOrder_example = loop-InOrder log_or_panic (crashed ∷ ready ∷ interrupted ∷ []) thread

loop-abandoned_example :
    let t = loop (returns log) (replicate 3 ready) (abandoned log (replicate 20 7) []) in
    (t.running ≡ false) × (t.world ≡ run_all log (replicate 20 7) [])
loop-abandoned_example = loop-abandoned log 2 (replicate 20 7) [] (omega arith)

-- A call that a thread makes: it adds 10 to the world and answers with the old one.
abbrev call : ℕ → Command ℕ ℕ
call n = record { function = λ w. (w, w + 10); result_tx = n }

abbrev waiting : Thread (Command ℕ ℕ) (Replied ℕ ℕ)
waiting = record {
  channel = record { queue = call 0 ∷ call 1 ∷ []; connected = true };
  arrivals = (call 3 ∷ []) ∷ [];
  running = true;
  world = record { world = 5; replies = [] };
}

run-answered_example :
    run_await false 2
      (loop (returns run_wrapped) (interrupted ∷ ready ∷ []) (record waiting {
        channel = record { queue = call 0 ∷ call 1 ∷ call 2 ∷ []; connected = true };
      })).world.replies
    ≡ done (ok 25)
unfolding run_send send reply_on run_wrapped
run-answered_example =
    run-answered (interrupted ∷ ready ∷ []) (call 2) waiting refl refl refl (omega arith) refl

-- Two waits; the second one's result comes first, and the first one's queue is popped again.
abbrev wait : ℕ → Any ℕ
wait n = record { type_id = 7; value = n }

abbrev in_turn : List (Event ℕ)
in_turn =
    begins (wait 1) ∷ begins (wait 2) ∷ resolves 1 true true ∷ resolves 0 true true ∷ pops 0 ∷ []

wait_for-own_example :
    (finish_wait 1 7 (steps in_turn no_waits) ≡ blocked)
    ⊎ (finish_wait 1 7 (steps in_turn no_waits) ≡ done (ok 2))
wait_for-own_example = wait_for-own in_turn 1 (wait 2) refl

wait_second : finish_wait 1 7 (steps in_turn no_waits) ≡ done (ok 2)
unfolding finish_wait extract steps step begin_wait resolve complete popped
wait_second = refl
