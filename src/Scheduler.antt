-- ===== src/Scheduler.antt =====
-- ext/prosody/src/scheduler: a task is submitted to the Ruby processor through the bridge, and its
-- result comes back over a one-shot channel. `Scheduler::schedule` and the cancellation token are
-- modelled here, with the bridge's answers as parameters; the channel and the processor are in the
-- children. Tracing carriers are not modelled.
mod Tests
pub mod Delivery
pub mod Processor
pub mod Tasks
use prosody_rb.Base.{String, Result, ok, err, map_err}
use prosody_rb.Ruby.{Error}
use prosody_rb.Ruby.Effects.{Eff}
use prosody_rb.Bridge.{BridgeError}

pub data SchedulerError : Type 0 where
  submit : String → SchedulerError
  bridge : BridgeError → SchedulerError
  cancel : String → SchedulerError
  shutdown : String → SchedulerError

-- `.await??`: an error of the bridge becomes a scheduler error, and an error of the function that
-- ran passes through.
abbrev pub flatten_bridge :
    {A : Type 0} → Result BridgeError (Result SchedulerError A) → Result SchedulerError A
flatten_bridge (err e) = err (bridge e)
flatten_bridge (ok r) = r

-- The answer of `Bridge::run` to a function that calls Ruby.
abbrev pub Ran : Type 0 → Type 0
Ran A = Result BridgeError (Result Error A)

-- The closures map an error of Ruby to a scheduler error of their own.
abbrev pub ran :
    {A : Type 0} → (Error → SchedulerError) → Ran A → Result BridgeError (Result SchedulerError A)
ran f (ok r) = ok (map_err f r)
ran f (err e) = err e

module _ {W : Type 0} (error_text : Error → String) where
  -- `Scheduler::schedule`, where `run_submit` runs `RubyProcessor::submit` on the Ruby thread.
  unfoldable pub schedule :
      {Task Token : Type 0} → (Task → W → Ran Token × W) → Task → Eff SchedulerError W Token
  schedule run_submit task w =
      let (r, w') = run_submit task w in (flatten_bridge (ran (λ e. submit (error_text e)) r), w')

  -- `CancellationToken::cancel`, where `run_cancel` calls `cancel` on the Ruby token.
  unfoldable pub cancel_token :
      {Token : Type 0} → (Token → W → Ran (Unit {0}) × W) → Token → Eff SchedulerError W (Unit {0})
  cancel_token run_cancel token w =
      let (r, w') = run_cancel token w in (flatten_bridge (ran (λ e. cancel (error_text e)) r), w')

  -- The task that `Scheduler::drop` spawns to stop the processor; an error is logged.
  unfoldable pub drop_scheduler : (W → Ran (Unit {0}) × W) → Eff SchedulerError W (Unit {0})
  drop_scheduler run_stop w =
      let (r, w') = run_stop w in (flatten_bridge (ran (λ e. shutdown (error_text e)) r), w')
