-- ===== src/Client/Request.antt =====
-- ext/prosody/src/client/request.rs, and `response_error` of client/support.rs: a request to other
-- subsystems, with their replies as a Ruby hash. `deserialize` and `serialize` of the crate
-- `serde_magnus`, the parser of subsystem names and the requests of the core are parameters.
pub mod Refused
use prosody_rb.Base.{
  String, Option, none, some, List, [], ◌∷◌, Result, ok, err, ◌>>=◌, map_err, ok_or, collect,
}
use prosody_rb.Ruby.{Value, string, Error, new, argument_error, lit}
use prosody_rb.Ruby.Effects.{M, ◌>>=◌ as and_effect, and_then, lift, pure}
use prosody_rb.Ruby.Vm.{Vm, Carrier, extract_opentelemetry_context}
use prosody_rb.Util.Seconds.{Floats}
use prosody_rb.Util.ForkGuard.{ForkGuard}
use prosody_rb.Client.Calls.{check_fork, core_error, entered}

-- `NativeRequest`, and with `Unit` for its payload, `NativeExciseRequest`.
pub record NativeRequest (F64 Json : Type 0) : Type 0 where
  pub topic : String
  pub key : String
  pub payload : Json
  pub subsystems : List String
  pub timeout : F64

-- `ResponseError` of the core.
pub data ResponseError : Type 0 where
  handler : String → ResponseError
  timeout format_mismatch malformed : ResponseError

pub record Requests (W : Type 0) : Type 1 where
  pub ensure_runtime : W → W
  pub floats : Floats
  pub open floats use *
  pub Json : Type 0
  pub SubsystemName : Type 0
  pub try_subsystem : String → Result String SubsystemName
  pub as_str : SubsystemName → String
  pub deserialize : Value → Result Error (NativeRequest F64 Json)
  pub deserialize_excise : Value → Result Error (NativeRequest F64 (Unit {0}))
  pub serialize : Json → M W Value
  pub wait_request :
      Carrier
      → NativeRequest F64 Json
      → List SubsystemName
      → Duration
      → M W (Result String (List (SubsystemName × Result ResponseError Json)))
  pub wait_request_excise :
      Carrier
      → NativeRequest F64 (Unit {0})
      → List SubsystemName
      → Duration
      → M W (Result String (List (SubsystemName × Result ResponseError Json)))

abbrev pub bad_subsystem : String → Error
bad_subsystem error = new argument_error (lit error ∷ [])

abbrev pub bad_timeout : Error
bad_timeout = new argument_error (lit "timeout must be a finite, non-negative duration" ∷ [])

-- The constant of an error, and its message if it has one.
unfoldable pub error_parts : ResponseError → String × Option String
error_parts (handler message) = ("HandlerError", some message)
error_parts timeout = ("Timeout", none)
error_parts format_mismatch = ("FormatMismatch", none)
error_parts malformed = ("MalformedResponse", none)

module _ {W : Type 0} (vm : Vm W) (r : Requests W) where
  open r use {floats, F64, Duration, Json, SubsystemName, try_subsystem, as_str, serialize}

  unfoldable pub request_parameters :
      List String → F64 → Result Error (List SubsystemName × Duration)
  request_parameters subsystems seconds = do
    names ← map_err bad_subsystem (collect try_subsystem subsystems)
    duration ← ok_or bad_timeout (floats.try_from_secs_f64 seconds)
    ok (names, duration)

  abbrev pub error_arguments : Option String → List Value
  error_arguments none = []
  error_arguments (some message) = vm.keyword "message" (string message) ∷ []

  unfoldable pub response_error : ResponseError → M W Value
  unfolding error_parts
  response_error error =
      and_effect (vm.const_get vm.root_module (error_parts error).0)
        (λ class. vm.new_instance class (error_arguments (error_parts error).1))

  -- The outcome of one subsystem.
  unfoldable pub outcome : Value → Value → Result ResponseError Json → M W Value
  unfolding response_error
  outcome success failure (ok value) =
      and_effect (serialize value) (λ v. vm.new_instance success (vm.keyword "value" v ∷ []))
  outcome success failure (err error) =
      and_effect (response_error error) (λ e. vm.new_instance failure (vm.keyword "error" e ∷ []))

  unfoldable pub set_outcomes :
      Value → Value → Value → List (SubsystemName × Result ResponseError Json) → M W (Unit {0})
  unfolding outcome
  set_outcomes outcomes success failure [] w = (ok tt, w)
  set_outcomes outcomes success failure ((subsystem, result) ∷ results) w =
      and_then (outcome success failure result w) (λ o. λ w'.
        and_then (vm.aset outcomes (as_str subsystem) o w')
          (λ _. set_outcomes outcomes success failure results))

  unfoldable pub request_outcomes : List (SubsystemName × Result ResponseError Json) → M W Value
  unfolding set_outcomes
  request_outcomes results = and_effect vm.hash_new (λ outcomes.
      and_effect (vm.const_get vm.root_module "Success") (λ success.
        and_effect (vm.const_get vm.root_module "Failure") (λ failure.
          and_effect (set_outcomes outcomes success failure results) (λ _. pure outcomes))))

  -- What both methods do once the request is read.
  unfoldable pub run_request :
      {Payload : Type 0}
      → (Carrier
          → NativeRequest F64 Payload
          → List SubsystemName
          → Duration
          → M W (Result String (List (SubsystemName × Result ResponseError Json))))
      → NativeRequest F64 Payload
      → M W Value
  unfolding request_parameters request_outcomes
  run_request wait n =
      and_effect (lift (request_parameters n.subsystems n.timeout)) (λ (subsystems, duration).
        and_effect (extract_opentelemetry_context vm) (λ context.
          and_effect (wait context n subsystems duration)
            (λ reply. and_effect (lift (map_err core_error reply)) request_outcomes)))

  unfoldable pub request : ForkGuard → Value → M W Value
  unfolding run_request check_fork
  request fork v = and_effect (check_fork vm fork) (λ _.
      and_effect (entered vm r.ensure_runtime)
        (λ _. and_effect (lift (r.deserialize v)) (run_request r.wait_request)))

  unfoldable pub request_excise : ForkGuard → Value → M W Value
  unfolding run_request check_fork
  request_excise fork v = and_effect (check_fork vm fork) (λ _.
      and_effect (entered vm r.ensure_runtime)
        (λ _. and_effect (lift (r.deserialize_excise v)) (run_request r.wait_request_excise)))
