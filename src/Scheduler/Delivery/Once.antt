-- ===== src/Scheduler/Delivery/Once.antt =====
-- A result is delivered at most once.
use prosody_rb.Base.{
  ℕ, ◌+◌, ◌≤◌, ◌≡◌, refl, Bool, true, false, Option, none, some, List, [], ◌∷◌, Result, ok, err,
  arith, if◌then◌else◌, ◌++◌, All, IsOk, Result-cases, inl, inr, ap, ◌∙◌,
}
use prosody_rb.Ruby.{Value}
use prosody_rb.Scheduler.Delivery.{
  ProcessingError, ErrorCategory, classify_error, Exceptions, Sender, held, taken, dropped,
  ResultChannel, result_channel, Received, waiting, received, receive, failure, success, Event,
  call, drop_sender, drop_receiver, step, run,
}

module _ {Json : Type 0} (x : Exceptions Json) where
  abbrev room : Sender → ℕ
  room held = 1
  room taken = 0
  room dropped = 0

  -- A call that answers `true` uses up the sender.
  step-room :
      (c : ResultChannel Json) (e : Event)
      → room (step x c e).0.sender + (if (step x c e).1 then 1 else 0) ≤ room c.sender
  unfolding step
  step-room c (call args) = ground arith
  step-room c drop_sender = ground arith
  step-room c drop_receiver = ground arith

  run-room : (c : ResultChannel Json) (events : List Event) → (run x c events).1 ≤ room c.sender
  unfolding run
  run-room c [] = omega arith
  run-room c (e ∷ events) = ground (arith, step-room c e, run-room (step x c e).0 events)

  -- Whatever calls and drops a new channel sees, in any order, at most one call of the proc answers
  -- that its result was sent.
  pub run-once : (events : List Event) → (run x result_channel events).1 ≤ 1
  unfolding result_channel
  run-once events = run-room result_channel events

  -- A channel that holds a result has no sender left.
  step-slot :
      (c : ResultChannel Json) (e : Event) (r : Result ProcessingError Json)
      → c.sender ≡ taken
      → c.slot ≡ some r
      → ((step x c e).0.sender ≡ taken) × ((step x c e).0.slot ≡ some r)
  unfolding step
  step-slot c (call args) r t h = ground arith
  step-slot c drop_sender r t h = ground arith
  step-slot c drop_receiver r t h = ground arith

  run-slot :
      (c : ResultChannel Json) (events : List Event) (r : Result ProcessingError Json)
      → c.sender ≡ taken
      → c.slot ≡ some r
      → (run x c events).0.slot ≡ some r
  unfolding run
  run-slot c [] r t h = h
  run-slot c (e ∷ events) r t h =
      let (t', h') = step-slot c e r t h in run-slot (step x c e).0 events r t' h'

  abbrev pub outcome : Bool → Value → Result ProcessingError Json
  outcome true v = success x v
  outcome false v = err (failure x v)

  first-slot :
      (flag v : Value) (more : List Value) (is_success : Bool)
      → x.try_convert flag ≡ ok is_success
      → let c = (step x result_channel (call (flag ∷ v ∷ more))).0 in
        (c.sender ≡ taken) × (c.slot ≡ some (outcome is_success v))
  unfolding step result_channel
  first-slot flag v more true h = ground arith
  first-slot flag v more false h = ground arith

  run_cons-slot :
      (c : ResultChannel Json) (e : Event) (events : List Event) {r : Result ProcessingError Json}
      → (step x c e).0.sender ≡ taken
      → (step x c e).0.slot ≡ some r
      → (run x c (e ∷ events)).0.slot ≡ some r
  unfolding run
  run_cons-slot c e events t h = run-slot (step x c e).0 events _ t h

  receive-slot :
      (c : ResultChannel Json) {r : Result ProcessingError Json}
      → c.slot ≡ some r
      → receive c ≡ received r
  unfolding receive
  receive-slot c h = ground arith

  -- A call of the proc that raises: too few arguments, or a flag that is no Boolean.
  abbrev pub Raises : Event → Type 0
  Raises (call []) = Unit
  Raises (call (v ∷ [])) = Unit
  Raises (call (flag ∷ v ∷ more)) = ¬ IsOk (x.try_convert flag)
  Raises drop_sender = ⊥
  Raises drop_receiver = ⊥

  step-Raises : (c : ResultChannel Json) (e : Event) → Raises e → (step x c e).0 ≡ c
  unfolding step
  step-Raises c drop_sender h = absurd h
  step-Raises c drop_receiver h = absurd h
  step-Raises c (call []) h = refl
  step-Raises c (call (v ∷ [])) h = refl
  step-Raises c (call (flag ∷ v ∷ more)) h = elim (Result-cases (x.try_convert flag)) [
    | inl (a, e) ↦ absurd (h (rw e tt))
    | inr (e, q) ↦ ground (arith, q)
  ]

  run-Raises :
      (c : ResultChannel Json) (before events : List Event)
      → All Raises before
      → (run x c (before ++ events)).0 ≡ (run x c events).0
  unfolding run
  run-Raises c [] events h = refl
  run-Raises c (e ∷ before) events (h, hs) =
      run-Raises (step x c e).0 before events hs ∙ ap (λ d. (run x d events).0) (step-Raises c e h)

  -- The first call of the proc with two arguments and a convertible flag decides what the receiver
  -- gets, whatever calls that raise came before it, and whatever calls and drops come later: the
  -- value as JSON for a success, the classified exception for a failure.
  pub receive-run_first :
      (before : List Event) (flag v : Value) (more : List Value) (is_success : Bool)
      (events : List Event)
      → All Raises before
      → x.try_convert flag ≡ ok is_success
      → receive (run x result_channel (before ++ (call (flag ∷ v ∷ more) ∷ events))).0
        ≡ received (outcome is_success v)
  receive-run_first before flag v more is_success events quiet h =
      let (t, e) = first-slot flag v more is_success h in
      ap receive (run-Raises result_channel before (call (flag ∷ v ∷ more) ∷ events) quiet)
      ∙ receive-slot _ (run_cons-slot result_channel (call (flag ∷ v ∷ more)) events t e)

  abbrev pub category : Received Json → Option ErrorCategory
  category (received (err e)) = some (classify_error e)
  category (received (ok j)) = none
  category waiting = none

  -- A task whose first report is a failure is classified permanent exactly when `permanent?` of its exception returns true:
  -- where that call fails, or returns false, and where the sender is dropped with nothing sent,
  -- the error is transient.
  pub category-run :
      (flag v : Value) (more : List Value)
      → x.try_convert flag ≡ ok false
      → (category (receive (run x result_channel (call (flag ∷ v ∷ more) ∷ [])).0)
          ≡ some (elim (x.is_permanent v) [
            | ok true ↦ ErrorCategory.permanent
            | _ ↦ ErrorCategory.transient
          ]))
        × (category (receive (run x result_channel (drop_sender ∷ [])).0)
            ≡ some ErrorCategory.transient)
  unfolding receive result_channel run step classify_error
  category-run flag v more h = (ground arith, refl)
