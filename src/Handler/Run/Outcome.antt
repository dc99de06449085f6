-- ===== src/Handler/Run/Outcome.antt =====
-- How an event can end, and which of its errors are permanent.
use prosody_rb.Base.{
  ◌≡◌, refl, sym, subst, ◌∙◌, ok-injective, err-ne-ok, String, Result, ok, err, map_err, arith,
}
use prosody_rb.Ruby.Effects.{and_then}
use prosody_rb.Scheduler.{SchedulerError, schedule, cancel_token}
use prosody_rb.Scheduler.Delivery.{ProcessingError, ErrorCategory, classify_error}
use prosody_rb.Handler.Run.{
  HandlerError, scheduler, processing, classify_handler_error, Task, Race, finished, cancelled,
  HandlerWorld, after_race, run_task, from_error,
}

module _ {W Token Json : Type 0} (o : HandlerWorld W Token Json) where
  -- The result of the task that this event has submitted: it is scheduled, and its own token brings
  -- the result, at the end of the race or, once the cancellation has been sent, by the wait for it.
  pub data Reported (task : Task) (w : W) (r : Result ProcessingError Json) : Type 0 where
    by_race :
        (token : Token) (w1 w2 : W)
        → schedule o.error_text o.run_submit task w ≡ (ok token, w1)
        → o.select token w1 ≡ (finished r, w2)
        → Reported task w r
    by_await :
        (token : Token) (w1 w2 w3 : W)
        → schedule o.error_text o.run_submit task w ≡ (ok token, w1)
        → o.select token w1 ≡ (cancelled, w2)
        → cancel_token o.error_text o.run_cancel token w2 ≡ (ok tt, w3)
        → (o.await_result token w3).0 ≡ r
        → Reported task w r

  -- How a task can end: with what it reported itself, or with an error of submission or
  -- cancellation.
  pub data Origin (task : Task) (w : W) (x : Result HandlerError Json) : Type 0 where
    reported :
        (r : Result ProcessingError Json)
        → Reported task w r
        → x ≡ map_err processing r
        → Origin task w x
    failed : (e : SchedulerError) → x ≡ err (scheduler e) → Origin task w x

  awaited : Token → Result SchedulerError (Unit {0}) × W → Result HandlerError Json × W
  awaited token (r, w) =
      and_then (map_err scheduler r, w) (λ _. from_error processing (o.await_result token))

  module _ (task : Task) (w : W) where
    awaited-Origin :
        (token : Token) (w1 w2 : W) (c : Result SchedulerError (Unit {0}) × W)
        → schedule o.error_text o.run_submit task w ≡ (ok token, w1)
        → o.select token w1 ≡ (cancelled, w2)
        → cancel_token o.error_text o.run_cancel token w2 ≡ c
        → Origin task w (awaited token c).0
    unfolding awaited
    awaited-Origin token w1 w2 (ok tt, w3) h k l =
        reported (o.await_result token w3).0 (by_await token w1 w2 w3 h k l refl) refl
    awaited-Origin token w1 w2 (err e, w3) h k l = failed e refl

    after_race-Origin :
        (token : Token) (w1 : W) (race : Race Json × W)
        → schedule o.error_text o.run_submit task w ≡ (ok token, w1)
        → o.select token w1 ≡ race
        → Origin task w (after_race o token race).0
    unfolding after_race awaited
    after_race-Origin token w1 (finished r, w2) h k = reported r (by_race token w1 w2 h k) refl
    after_race-Origin token w1 (cancelled, w2) h k =
        awaited-Origin token w1 w2 (cancel_token o.error_text o.run_cancel token w2) h k refl

    raced : Result SchedulerError Token × W → Result HandlerError Json × W
    raced (r, v) =
        and_then (map_err scheduler r, v) (λ token. λ w'. after_race o token (o.select token w'))

    raced-Origin :
        (s : Result SchedulerError Token × W)
        → schedule o.error_text o.run_submit task w ≡ s
        → Origin task w (raced s).0
    unfolding raced
    raced-Origin (ok token, w1) h = after_race-Origin token w1 (o.select token w1) h refl
    raced-Origin (err e, w1) h = failed e refl

    run_task-Origin : Origin task w (run_task o task w).0
    unfolding run_task raced
    run_task-Origin = raced-Origin (schedule o.error_text o.run_submit task w) refl

  Origin-permanent :
      {task : Task} {w : W} {x : Result HandlerError Json} {e : HandlerError}
      → Origin task w x
      → x ≡ err e
      → classify_handler_error e ≡ ErrorCategory.permanent
      → (s : String) × Reported task w (err (ProcessingError.permanent s))
  unfolding classify_handler_error classify_error
  Origin-permanent (failed e q) h p = ground arith
  Origin-permanent (reported (ok j) rep q) h p = ground arith
  Origin-permanent (reported (err (ProcessingError.permanent s)) rep q) h p = (s, rep)
  Origin-permanent (reported (err (ProcessingError.transient s)) rep q) h p = ground arith
  Origin-permanent (reported (err ProcessingError.closed) rep q) h p = ground arith

  -- An event whose error is classified permanent has had a permanent error from the Ruby task that
  -- it submitted, by the race or, after a cancellation, by the wait for that task.
  pub run_task-permanent :
      (task : Task) (w : W) {e : HandlerError}
      → (run_task o task w).0 ≡ err e
      → classify_handler_error e ≡ ErrorCategory.permanent
      → (s : String) × Reported task w (err (ProcessingError.permanent s))
  run_task-permanent task w h p = Origin-permanent (run_task-Origin task w) h p

  Origin-ok :
      {task : Task} {w : W} {x : Result HandlerError Json} {j : Json}
      → Origin task w x
      → x ≡ ok j
      → Reported task w (ok j)
  Origin-ok (failed e q) h = absurd (err-ne-ok _ _ (sym q ∙ h))
  Origin-ok (reported (err e) rep q) h = absurd (err-ne-ok _ _ (sym q ∙ h))
  Origin-ok {task} {w} (reported (ok j) rep q) h =
      subst (λ k. Reported task w (ok k)) (ok-injective _ _ (sym q ∙ h)) rep

  -- An event succeeds only with the value that the Ruby task itself reported, after a cancellation
  -- too.
  pub run_task-ok :
      (task : Task) (w : W) {j : Json} → (run_task o task w).0 ≡ ok j → Reported task w (ok j)
  run_task-ok task w h = Origin-ok (run_task-Origin task w) h
