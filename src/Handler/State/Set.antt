-- ===== src/Handler/State/Set.antt =====
-- ext/prosody/src/handler/state/set.rs: the handle of a set. A stream of the core is lazy, so making
-- one has no effect.
mod Tests
pub mod Members
pub mod Refines
use prosody_rb.Base.{String, Bool, List, Result, ok}
use prosody_rb.Ruby.{Value, Error}
use prosody_rb.Ruby.Effects.{M, ◌>>=◌, pure, lift}
use prosody_rb.Ruby.Vm.{Vm, Carrier}
use prosody_rb.Handler.State.Handles.{ErasedStateError, StoreOutcome, outcome_symbol, run_state}
use prosody_rb.Handler.State.Cursor.{StateCursor}
use prosody_rb.Handler.State.Query.{Query, key_query}

-- The operations of a set of the core.
pub record SetState (W : Type 0) : Type 0 where
  pub wait_contains : String → Carrier → M W (Result ErasedStateError Bool)
  pub wait_contains_many : List String → Carrier → M W (Result ErasedStateError (List Bool))
  pub wait_is_empty : Carrier → M W (Result ErasedStateError Bool)
  pub wait_insert : String → Carrier → M W (Result ErasedStateError (Unit {0}))
  pub wait_remove : String → Carrier → M W (Result ErasedStateError (Unit {0}))
  pub wait_clear : Carrier → M W (Result ErasedStateError (Unit {0}))
  pub stream_keys : Query String → StateCursor W String
  pub wait_commit : Carrier → M W (Result ErasedStateError StoreOutcome)
  pub wait_rollback : Carrier → M W StoreOutcome

module _ {W : Type 0} (vm : Vm W) (state : SetState W) where
  open state use {
    wait_contains, wait_contains_many, wait_is_empty, wait_insert, wait_remove, wait_clear,
    stream_keys, wait_commit, wait_rollback,
  }

  unfoldable pub set_contains : String → M W Bool
  unfolding run_state
  set_contains member = run_state vm (wait_contains member)

  unfoldable pub set_contains_many : List String → M W (List Bool)
  unfolding run_state
  set_contains_many members = run_state vm (wait_contains_many members)

  unfoldable pub set_is_empty : M W Bool
  unfolding run_state
  set_is_empty = run_state vm wait_is_empty

  unfoldable pub set_insert : String → M W (Unit {0})
  unfolding run_state
  set_insert member = run_state vm (wait_insert member)

  unfoldable pub set_remove : String → M W (Unit {0})
  unfolding run_state
  set_remove member = run_state vm (wait_remove member)

  unfoldable pub set_clear : M W (Unit {0})
  unfolding run_state
  set_clear = run_state vm wait_clear

  unfoldable pub set_keys :
      (Value → Result Error String) → String → List (String × Value) → M W (StateCursor W String)
  unfolding key_query
  set_keys try_convert direction options = do
    query ← lift (key_query try_convert direction options)
    pure (stream_keys query)

  unfoldable pub set_commit : M W String
  unfolding run_state outcome_symbol
  set_commit = do outcome ← run_state vm wait_commit; pure (outcome_symbol outcome)

  unfoldable pub set_rollback : M W String
  unfolding run_state outcome_symbol
  set_rollback = do
    outcome ← run_state vm (λ context. wait_rollback context >>= λ outcome. pure (ok outcome))
    pure (outcome_symbol outcome)
