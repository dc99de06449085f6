-- ===== src/Client/Request/Refused.antt =====
-- Which requests reach the core.
use prosody_rb.Base.{
  Result-cases, inl, inr, ◌⊎◌, ◌≡◌, refl, ◌↔◌, String, List, [], ◌∷◌, Result, ok, err, IsOk, All,
  is_some, true, arith, collect,
}
use prosody_rb.Ruby.{Value, Error}
use prosody_rb.Ruby.Vm.{Vm, Carrier}
use prosody_rb.Ruby.Effects.{M}
use prosody_rb.Util.ForkGuard.{ForkGuard, check}
use prosody_rb.Client.Calls.{check_fork}
use prosody_rb.Client.Request.{
  request, request_excise, NativeRequest, Requests, ResponseError, request_parameters, run_request,
}

collect-IsOk :
    {E A B : Type 0} (f : A → Result E B) (l : List A)
    → IsOk (collect f l) ↔ All (λ a. IsOk (f a)) l
collect-IsOk f [] = (λ h. tt, λ h. tt)
collect-IsOk f (a ∷ l) = ground (arith, collect-IsOk f l)

module _ {W : Type 0} (vm : Vm W) (r : Requests W) where
  open r use {floats, F64, Duration, Json, SubsystemName, try_subsystem}

  -- The parameters of a request are accepted exactly when the core accepts each subsystem's name and
  -- the timeout is a duration.
  pub request_parameters-IsOk :
      (subsystems : List String) (timeout : F64)
      → IsOk (request_parameters vm r subsystems timeout) ↔ (
          All (λ s. IsOk (try_subsystem s)) subsystems
          × (is_some (floats.try_from_secs_f64 timeout) ≡ true))
  unfolding request_parameters
  request_parameters-IsOk subsystems timeout = ground (arith, collect-IsOk try_subsystem subsystems)

  -- A request whose parameters are refused fails with the error of its parameters, and calls neither
  -- Ruby nor the core.
  run_request-refused :
      {Payload : Type 0}
      (wait : Carrier
        → NativeRequest F64 Payload
        → List SubsystemName
        → Duration
        → M W (Result String (List (SubsystemName × Result ResponseError Json))))
      (n : NativeRequest F64 Payload) (w : W) {e : Error}
      → request_parameters vm r n.subsystems n.timeout ≡ err e
      → run_request vm r wait n w ≡ (err e, w)
  unfolding run_request
  run_request-refused wait n w h = rw h refl

  -- The parameters that a request may have.
  abbrev pub IsParameters : List String → F64 → Type 0
  IsParameters subsystems timeout =
      All (λ s. IsOk (try_subsystem s)) subsystems
      × (is_some (floats.try_from_secs_f64 timeout) ≡ true)

  -- A call that fails and does nothing outside, but for the set-up of the runtime.
  abbrev pub IsUnsent : W → Result Error Value × W → Type 0
  IsUnsent w (result, w') = (¬ IsOk result) × ((w' ≡ w) ⊎ (w' ≡ r.ensure_runtime w))

  run_request-IsUnsent :
      {Payload : Type 0}
      (wait : Carrier
        → NativeRequest F64 Payload
        → List SubsystemName
        → Duration
        → M W (Result String (List (SubsystemName × Result ResponseError Json))))
      (n : NativeRequest F64 Payload) (w : W)
      → (¬ IsParameters n.subsystems n.timeout)
      → IsUnsent w (run_request vm r wait n (r.ensure_runtime w))
  run_request-IsUnsent wait n w h =
      elim (Result-cases (request_parameters vm r n.subsystems n.timeout)) [
        | inl (a, e) ↦ absurd (h ((request_parameters-IsOk n.subsystems n.timeout).0 (rw e tt)))
        | inr (e, q) ↦ rw (run_request-refused wait n (r.ensure_runtime w) q) (λ x. x, inr refl)
      ]

  -- A request that names a subsystem that the core refuses, or whose timeout is not a duration,
  -- fails before any request to the core and any call of Ruby but those of the set-up of the runtime,
  -- with a payload or as an excise request.
  pub request-IsUnsent :
      (fork : ForkGuard) (v : Value) (w : W) (n : NativeRequest F64 Json)
      (excise : NativeRequest F64 (Unit {0}))
      → r.deserialize v ≡ ok n
      → r.deserialize_excise v ≡ ok excise
      → (¬ IsParameters n.subsystems n.timeout)
      → (¬ IsParameters excise.subsystems excise.timeout)
      → IsUnsent w (request vm r fork v w) × IsUnsent w (request_excise vm r fork v w)
  unfolding request request_excise check_fork
  request-IsUnsent fork v w n excise d d' h h' =
      elim (Result-cases (check fork (vm.process_id w))) [
        | inl (u, e) ↦
            rw (e, d, d')
              (
                run_request-IsUnsent r.wait_request n w h,
                run_request-IsUnsent r.wait_request_excise excise w h',
              )
        | inr (e, q) ↦ rw q ((λ x. x, inl refl), (λ x. x, inl refl))
      ]
