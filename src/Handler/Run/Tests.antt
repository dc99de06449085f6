-- ===== src/Handler/Run/Tests.antt =====
-- An event that Ruby fails for good, and one that is cancelled and then succeeds.
use prosody_rb.Base.{ℕ, refl, String, true, [], ◌∷◌, ok, err}
use prosody_rb.Ruby.{lit}
use prosody_rb.Scheduler.{schedule, cancel_token}
use prosody_rb.Scheduler.Delivery.{classify_error, ProcessingError}
use prosody_rb.Handler.Run.{
  Task, finished, cancelled, HandlerWorld, run_task, after_race, cancel_task,
  classify_handler_error,
}
use prosody_rb.Handler.Run.Outcome.{Reported, run_task-permanent, run_task-ok}

abbrev task : Task
task = record {
  task_id = lit "t/0:1" ∷ [];
  event_context = [];
  method = "on_message";
  keeps_result = true;
}

-- The task's result wins the race with a permanent error.
abbrev failing : HandlerWorld ℕ ℕ ℕ
failing = record {
  error_text = λ e. "";
  run_submit = λ t. λ w. (ok (ok 7), w);
  select = λ token. λ w. (finished (err (ProcessingError.permanent "no")), w);
  run_cancel = λ token. λ w. (ok (ok tt), w);
  await_result = λ token. λ w. (ok 0, w);
  null = 0;
}

-- The cancellation wins, and the task still succeeds.
abbrev late : HandlerWorld ℕ ℕ ℕ
late = record {
  error_text = λ e. "";
  run_submit = λ t. λ w. (ok (ok 7), w);
  select = λ token. λ w. (cancelled, w);
  run_cancel = λ token. λ w. (ok (ok tt), w);
  await_result = λ token. λ w. (ok 42, w);
  null = 0;
}

run_task-permanent_example :
    (s : String) × Reported failing task 0 (err (ProcessingError.permanent s))
unfolding run_task classify_handler_error schedule classify_error
run_task-permanent_example = run_task-permanent failing task 0 refl refl

run_task-ok_example : Reported late task 0 (ok 42)
unfolding run_task schedule cancel_token after_race cancel_task
run_task-ok_example = run_task-ok late task 0 refl
