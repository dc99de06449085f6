-- ===== src/Handler/Run/Worker/Outcome.antt =====
-- From a handler's method to the result of its event.
use mathlib.Core.List.{map}
use prosody_rb.Base.{
  ◌++◌, ◌≡◌, refl, ap, ◌∙◌, ◌⊎◌, inl, inr, String, Bool, true, false, [], ◌∷◌, Result, ok, err,
  map_err, if◌then◌else◌,
}
use prosody_rb.Ruby.{Value, nil, boolean, Error}
use prosody_rb.Ruby.Effects.{M}
use prosody_rb.Scheduler.{schedule, cancel_token}
use prosody_rb.Scheduler.Delivery.{
  ProcessingError, closed, Exceptions, call, drop_sender, received, receive, result_channel, run,
  step, success, failure,
}
use prosody_rb.Scheduler.Delivery.Once.{receive-run_first}
use prosody_rb.Handler.Run.{
  processing, Task, task_body, finished, cancelled, HandlerWorld, run_task, after_race, cancel_task,
}
use prosody_rb.Handler.Run.Worker.{
  Rescue, stop, standard, neither, Rescues, rescued, worker_calls, worker_events,
}

module _ {W Token Json : Type 0} (o : HandlerWorld W Token Json) (x : Exceptions Json)
    (r : Rescues) where
  -- The outcome of an event whose handler's method gives `raw`.
  abbrev pub raised_outcome : Value → Rescue → ProcessingError
  raised_outcome e stop = failure x (r.task_cancelled)
  raised_outcome e standard = failure x e
  raised_outcome e neither = closed

  abbrev pub event_outcome : Task → Result Error Value → Result ProcessingError Json
  event_outcome task (ok v) =
      map_err ProcessingError.transient (x.deserialize (if task.keeps_result then v else nil))
  event_outcome task (err e) =
      err (raised_outcome (r.exception_of e) (r.rescue_of (r.exception_of e)))

  -- The task's result reaches the race, or is awaited after a cancellation that Ruby accepted.
  abbrev pub Reaches : Token → W → Result ProcessingError Json → W → Type 0
  Reaches token w reply w' =
      (o.select token w ≡ (finished reply, w'))
      ⊎ ((w1 w2 : W) × (o.select token w ≡ (cancelled, w1))
          × (cancel_token o.error_text o.run_cancel token w1 ≡ (ok tt, w2))
          × (o.await_result token w2 ≡ (reply, w')))

  -- What the worker tells of the block's result.
  told : Result Error Value → Result ProcessingError Json
  told (ok v) = success x v
  told (err e) = err (raised_outcome (r.exception_of e) (r.rescue_of (r.exception_of e)))

  rescued-told :
      ((b : Bool) → x.try_convert (boolean b) ≡ ok b)
      → (e : Value) (rescue : Rescue)
      → receive (run x result_channel (map call (rescued r e rescue) ++ (drop_sender ∷ []))).0
        ≡ received (err (raised_outcome e rescue))
  unfolding receive run result_channel step
  rescued-told converts e stop =
      receive-run_first x [] (boolean false) r.task_cancelled [] false (drop_sender ∷ []) tt
        (converts false)
  rescued-told converts e standard =
      receive-run_first x [] (boolean false) e [] false (drop_sender ∷ []) tt (converts false)
  rescued-told converts e neither = refl

  worker-told :
      ((b : Bool) → x.try_convert (boolean b) ≡ ok b)
      → (result : Result Error Value)
      → receive (run x result_channel (worker_events r result)).0 ≡ received (told result)
  unfolding worker_events worker_calls told
  worker-told converts (ok v) =
      receive-run_first x [] (boolean true) v [] true (drop_sender ∷ []) tt (converts true)
  worker-told converts (err e) =
      rescued-told converts (r.exception_of e) (r.rescue_of (r.exception_of e))

  body-told :
      (funcall : String → M W Value) (task : Task) (w w' : W) (raw : Result Error Value)
      → funcall task.method w ≡ (raw, w')
      → told (task_body funcall task w).0 ≡ event_outcome task raw
  unfolding told task_body success
  body-told funcall task w w' (ok v) e = rw (e) refl
  body-told funcall task w w' (err error) e = rw (e) refl

  Reaches-run :
      (task : Task) (token : Token) (w w1 w2 : W) (reply : Result ProcessingError Json)
      → schedule o.error_text o.run_submit task w ≡ (ok token, w1)
      → Reaches token w1 reply w2
      → run_task o task w ≡ (map_err processing reply, w2)
  unfolding run_task after_race cancel_task
  Reaches-run task token w w1 w2 reply scheduled (inl won) = rw (scheduled, won) refl
  Reaches-run task token w w1 w2 reply scheduled (inr (wa, wb, lost, stopped, awaited)) =
      rw (scheduled, lost, stopped, awaited) refl

  -- An event from end to end. Let its task be submitted, and its handler's method give `raw` in
  -- Ruby; let the worker report the block's result through the proc, and let what the receiver then
  -- gets reach the race, or be awaited after a cancellation. Then the event ends with the method's
  -- value as JSON, or nil's where no response was asked for; with the classified exception where
  -- the method raised one; with the error of a cancelled task where it was stopped; and with the
  -- error of a closed channel where Ruby rescues nothing.
  pub run_task-worker :
      (converts : (b : Bool) → x.try_convert (boolean b) ≡ ok b) (funcall : String → M W Value)
      (task : Task) (token : Token) (w w1 w2 v v' : W) (raw : Result Error Value)
      (reply : Result ProcessingError Json)
      → schedule o.error_text o.run_submit task w ≡ (ok token, w1)
      → funcall task.method v ≡ (raw, v')
      → receive (run x result_channel (worker_events r (task_body funcall task v).0)).0
        ≡ received reply
      → Reaches token w1 reply w2
      → run_task o task w ≡ (map_err processing (event_outcome task raw), w2)
  run_task-worker converts funcall task token w w1 w2 v v' raw reply scheduled called got reaches =
      let heard = worker-told converts (task_body funcall task v).0 in
      let body = body-told funcall task v v' raw called in
      let same : reply ≡ told (task_body funcall task v).0 = cc in
      Reaches-run task token w w1 w2 reply scheduled reaches
      ∙ ap (λ a. (map_err processing a, w2)) (same ∙ body)
