-- ===== src/Handler/Context/Timers.antt =====
-- The timer methods of `Context` in ext/prosody/src/handler/context/mod.rs. The awaited
-- calls of the core event context are parameters; spans are not modelled.
pub mod Outcome
use prosody_rb.Base.{ℕ, ℤ, String, Result, List, [], ◌∷◌, map_err}
use prosody_rb.Ruby.{Value, Error, new, runtime_error, lit}
use prosody_rb.Ruby.Vm.{Vm, extract_opentelemetry_context}
use prosody_rb.Ruby.Effects.{M, ◌>>=◌, ◌>>◌, lift, collect_effects}
use prosody_rb.Handler.Context.Time.{time_to_compact_datetime, compact_datetime_to_time}

-- `TimerType` of the core: the application's timers, and those of the middleware.
pub data TimerType : Type 0 where
  application : TimerType
  internal : ℕ → TimerType

-- A call of the core event context. Times are in whole seconds.
pub data TimerCall : Type 0 where
  schedule clear_and_schedule unschedule : ℕ → TimerType → TimerCall
  clear_scheduled : TimerType → TimerCall

abbrev pub failed : String → String → Error
failed what error = new runtime_error (lit what ∷ lit error ∷ [])

-- What the methods use: `to_i`, `nsec` and `Time.at` of Ruby, the Ruby VM, and the core.
-- The inner result of a core call is the core's own, with the text of its error.
pub record TimerWorld (W : Type 0) : Type 0 where
  pub to_i : Value → Result Error ℤ
  pub nsec : Value → Result Error ℕ
  pub time_at : ℤ → Result Error Value
  pub vm : Vm W
  pub wait_for : TimerCall → M W (Result String (Unit {0}))
  pub wait_for_scheduled : TimerType → M W (Result String (List ℕ))

module _ {W : Type 0} (t : TimerWorld W) where
  open t use {to_i, nsec, time_at, vm, wait_for, wait_for_scheduled}

  -- The shared tail of the four methods that change timers.
  unfoldable pub run_call : TimerCall → String → M W (Unit {0})
  run_call call what = do
    extract_opentelemetry_context vm
    reply ← wait_for call
    lift (map_err (failed what) reply)

  unfoldable pub context_schedule : Value → M W (Unit {0})
  unfolding run_call time_to_compact_datetime
  context_schedule ruby_time = do
    compact_time ← lift (time_to_compact_datetime to_i nsec ruby_time)
    run_call (schedule compact_time application) "Failed to schedule timer: "

  unfoldable pub context_clear_and_schedule : Value → M W (Unit {0})
  unfolding run_call time_to_compact_datetime
  context_clear_and_schedule ruby_time = do
    compact_time ← lift (time_to_compact_datetime to_i nsec ruby_time)
    run_call (clear_and_schedule compact_time application) "Failed to clear and schedule timer: "

  unfoldable pub context_unschedule : Value → M W (Unit {0})
  unfolding run_call time_to_compact_datetime
  context_unschedule ruby_time = do
    compact_time ← lift (time_to_compact_datetime to_i nsec ruby_time)
    run_call (unschedule compact_time application) "Failed to unschedule timer: "

  unfoldable pub context_clear_scheduled : M W (Unit {0})
  unfolding run_call
  context_clear_scheduled =
      run_call (clear_scheduled application) "Failed to clear scheduled timers: "

  unfoldable pub context_scheduled : M W (List Value)
  unfolding compact_datetime_to_time
  context_scheduled = do
    extract_opentelemetry_context vm
    reply ← wait_for_scheduled application
    times ← lift (map_err (failed "Failed to get scheduled times: ") reply)
    collect_effects (λ compact_time. lift (compact_datetime_to_time time_at compact_time)) times
