-- ===== src/Handler/Run/Worker.antt =====
-- The worker of a task in lib/prosody/processor.rb (`run_with_cancellation`): it calls the task's
-- block, and then the result proc, once or not at all.
mod Tests
pub mod Outcome
use mathlib.Core.List.{map}
use prosody_rb.Base.{true, false, List, [], ◌∷◌, ◌++◌, Result, ok, err}
use prosody_rb.Ruby.{Value, boolean, Error}
use prosody_rb.Scheduler.Delivery.{Event, call, drop_sender}

-- How Ruby rescues an exception: `Async::Stop`, a `StandardError`, or neither.
pub data Rescue : Type 0 where
  stop standard neither : Rescue

-- What the worker meets of Ruby: the exception of an error, the clause that rescues it, and the
-- error of a cancelled task, `RuntimeError.new("Task cancelled")`.
pub record Rescues : Type 0 where
  pub exception_of : Error → Value
  pub rescue_of : Value → Rescue
  pub task_cancelled : Value

module _ (r : Rescues) where
  open r use {exception_of, rescue_of, task_cancelled}

  -- The calls of the result proc after the block has returned or raised.
  abbrev pub rescued : Value → Rescue → List (List Value)
  rescued e stop = (boolean false ∷ task_cancelled ∷ []) ∷ []
  rescued e standard = (boolean false ∷ e ∷ []) ∷ []
  rescued e neither = []

  unfoldable pub worker_calls : Result Error Value → List (List Value)
  worker_calls (ok result) = (boolean true ∷ result ∷ []) ∷ []
  worker_calls (err error) = rescued (exception_of error) (rescue_of (exception_of error))

  -- What the result's channel sees: those calls, and then the end of the proc.
  unfoldable pub worker_events : Result Error Value → List Event
  unfolding worker_calls
  worker_events result = map call (worker_calls result) ++ (drop_sender ∷ [])
