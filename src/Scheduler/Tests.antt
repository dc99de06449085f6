-- ===== src/Scheduler/Tests.antt =====
-- The result channel and the processor on concrete calls.
use prosody_rb.Base.{
  ℕ, ◌+◌, ◌≤◌, ◌≡◌, refl, Bool, true, false, some, List, [], ◌∷◌, Result, ok, err,
}
use prosody_rb.Ruby.{Value, nil, boolean, string, Error, new, type_error, lit}
use prosody_rb.Scheduler.Delivery.{
  Exceptions, Event, call, drop_sender, drop_receiver, result_channel, received, receive, run,
  ErrorCategory, success,
}
use prosody_rb.Scheduler.Delivery.Once.{run-once, receive-run_first, category, category-run}

abbrev bad_value : Error
bad_value = new type_error (lit "bad value" ∷ [])

abbrev to_boolean : Value → Result Error Bool
to_boolean (boolean b) = ok b
to_boolean v = err bad_value

-- Exceptions are strings here, and permanent; JSON values are Ruby values.
abbrev exceptions : Exceptions Value
exceptions = record {
  is_permanent = λ v. ok true;
  full_message = λ v. err bad_value;
  inspect = λ v. ok "an exception";
  to_string = λ v. "";
  deserialize = λ v. ok v;
  try_convert = to_boolean;
}

abbrev events : List Event
events = call (boolean false ∷ string "boom" ∷ []) ∷ call [] ∷ drop_receiver ∷ drop_sender ∷ []

run-once_example : (run exceptions result_channel events).1 ≤ 1
run-once_example = run-once exceptions events

receive-run_first_example :
    receive
      (run exceptions result_channel
        (call [] ∷ call (nil ∷ nil ∷ []) ∷ call (boolean true ∷ string "a" ∷ []) ∷ events)).0
    ≡ received (ok (string "a"))
unfolding success
receive-run_first_example =
    receive-run_first exceptions (call [] ∷ call (nil ∷ nil ∷ []) ∷ []) (boolean true) (string "a")
      [] true events (tt, (λ h. h, tt)) refl

category-run_example :
    (category exceptions
        (receive (run exceptions result_channel (call (boolean false ∷ nil ∷ []) ∷ [])).0)
      ≡ some ErrorCategory.permanent)
    × (category exceptions (receive (run exceptions result_channel (drop_sender ∷ [])).0)
        ≡ some ErrorCategory.transient)
category-run_example = category-run exceptions (boolean false) nil [] refl

-- A processor whose `stop` fails in Ruby.
abbrev failing_stop : ℕ → Result Error (Unit {0}) × ℕ
failing_stop n = (err bad_value, n + 1)

-- A task that fails and counts its calls.
abbrev failing_call : ℕ → ℕ → Result Error Value × ℕ
failing_call task n = (err bad_value, n + task)
