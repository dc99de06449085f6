-- ===== src/Handler/Run/Worker/Tests.antt =====
-- A handler that raises while its event is cancelled, and its error is awaited.
use prosody_rb.Base.{ℕ, ◌≡◌, refl, Bool, true, inr, String, [], ◌∷◌, Result, ok, err}
use prosody_rb.Ruby.{Value, boolean, string, nil, Error, exception, new, type_error, lit}
use prosody_rb.Ruby.Effects.{M}
use prosody_rb.Scheduler.{schedule, cancel_token}
use prosody_rb.Scheduler.Delivery.{
  ProcessingError, Exceptions, result_channel, receive, run, step, call_proc, send, failure,
  error_string,
}
use prosody_rb.Handler.Run.{Task, task_body, cancelled, processing, HandlerWorld, run_task}
use prosody_rb.Handler.Run.Worker.{standard, Rescues, worker_events, worker_calls}
use prosody_rb.Handler.Run.Worker.Outcome.{run_task-worker}

abbrev task : Task
task = record {
  task_id = lit "t/0:1" ∷ [];
  event_context = [];
  method = "on_message";
  keeps_result = true;
}

-- Exceptions are strings, permanent ones.
abbrev to_boolean : Value → Result Error Bool
to_boolean (boolean b) = ok b
to_boolean v = err (new type_error [])

abbrev exceptions : Exceptions Value
exceptions = record {
  is_permanent = λ v. ok true;
  full_message = λ v. ok "boom";
  inspect = λ v. ok "an exception";
  to_string = λ v. "";
  deserialize = λ v. ok v;
  try_convert = to_boolean;
}

abbrev exception_value : Error → Value
exception_value (exception v) = v
exception_value (new class message) = nil

abbrev rescues : Rescues
rescues = record {
  exception_of = exception_value;
  rescue_of = λ v. standard;
  task_cancelled = string "Task cancelled";
}

abbrev raising : String → M ℕ Value
raising method w = (err (exception (string "boom")), w)

-- The cancellation wins the race, and Ruby's answer is awaited.
abbrev world : HandlerWorld ℕ ℕ Value
world = record {
  error_text = λ e. "";
  run_submit = λ t. λ w. (ok (ok 7), w);
  select = λ token. λ w. (cancelled, w);
  run_cancel = λ token. λ w. (ok (ok tt), w);
  await_result = λ token. λ w. (err (ProcessingError.permanent "boom"), w);
  null = nil;
}

run_task-worker_example :
    run_task world task 1 ≡ (err (processing (ProcessingError.permanent "boom")), 1)
unfolding schedule cancel_token failure error_string receive run result_channel step call_proc send
    worker_events worker_calls task_body
run_task-worker_example =
    run_task-worker world exceptions rescues (λ b. refl) raising task 7 1 1 1 2 2
      (err (exception (string "boom"))) (err (ProcessingError.permanent "boom")) refl refl refl
      (inr (1, 1, refl, refl, refl))
