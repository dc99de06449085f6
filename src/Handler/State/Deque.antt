-- ===== src/Handler/State/Deque.antt =====
-- ext/prosody/src/handler/state/deque.rs: the handle of a deque. A stream of the core is lazy, so
-- making one has no effect.
pub mod Sample
mod Tests
pub mod Lists
pub mod Ends
pub mod Refines
pub mod Library
pub mod Indexed
pub mod Reads
pub mod Handle
use prosody_rb.Base.{ℕ, String, Bool, Option, List, Result, ok}
use prosody_rb.Ruby.{Value}
use prosody_rb.Ruby.Effects.{M, ◌>>=◌, and_then, pure, lift}
use prosody_rb.Ruby.Vm.{Vm, Carrier}
use prosody_rb.Handler.State.Handles.{ErasedStateError, StoreOutcome, outcome_symbol, run_state}
use prosody_rb.Handler.State.Cursor.{StateCursor}
use prosody_rb.Handler.State.Query.{Query, position_query}

-- The operations of a deque of the core.
pub record DequeState (W Item : Type 0) : Type 0 where
  pub wait_len : Carrier → M W (Result ErasedStateError ℕ)
  pub wait_is_empty : Carrier → M W (Result ErasedStateError Bool)
  pub wait_get : ℕ → Carrier → M W (Result ErasedStateError (Option Item))
  pub wait_peek_front : Carrier → M W (Result ErasedStateError (Option Item))
  pub wait_peek_back : Carrier → M W (Result ErasedStateError (Option Item))
  pub wait_push_back : Item → Carrier → M W (Result ErasedStateError (Unit {0}))
  pub wait_push_front : Item → Carrier → M W (Result ErasedStateError (Unit {0}))
  pub wait_pop_front : Carrier → M W (Result ErasedStateError (Option Item))
  pub wait_pop_back : Carrier → M W (Result ErasedStateError (Option Item))
  pub wait_clear : Carrier → M W (Result ErasedStateError (Unit {0}))
  pub stream_values : Query ℕ → StateCursor W Item
  pub wait_commit : Carrier → M W (Result ErasedStateError StoreOutcome)
  pub wait_rollback : Carrier → M W StoreOutcome

module _ {W Item : Type 0} (vm : Vm W) (state : DequeState W Item) (prepare : Value → M W Item)
    (restore : Option Item → M W Value) where
  open state use {
    wait_len, wait_is_empty, wait_get, wait_peek_front, wait_peek_back, wait_push_back,
    wait_push_front, wait_pop_front, wait_pop_back, wait_clear, stream_values, wait_commit,
    wait_rollback,
  }

  unfoldable pub deque_len : M W ℕ
  unfolding run_state
  deque_len = run_state vm wait_len

  unfoldable pub deque_is_empty : M W Bool
  unfolding run_state
  deque_is_empty = run_state vm wait_is_empty

  unfoldable pub deque_get : ℕ → M W Value
  unfolding run_state
  deque_get index = do item ← run_state vm (wait_get index); restore item

  unfoldable pub deque_peek_front : M W Value
  unfolding run_state
  deque_peek_front = do item ← run_state vm wait_peek_front; restore item

  unfoldable pub deque_peek_back : M W Value
  unfolding run_state
  deque_peek_back = do item ← run_state vm wait_peek_back; restore item

  unfoldable pub deque_push_back : Value → M W (Unit {0})
  unfolding run_state
  deque_push_back v = do item ← prepare v; run_state vm (wait_push_back item)

  unfoldable pub deque_push_front : Value → M W (Unit {0})
  unfolding run_state
  deque_push_front v = do item ← prepare v; run_state vm (wait_push_front item)

  unfoldable pub deque_pop_front : M W Value
  unfolding run_state
  deque_pop_front = do item ← run_state vm wait_pop_front; restore item

  unfoldable pub deque_pop_back : M W Value
  unfolding run_state
  deque_pop_back = do item ← run_state vm wait_pop_back; restore item

  unfoldable pub deque_clear : M W (Unit {0})
  unfolding run_state
  deque_clear = run_state vm wait_clear

  unfoldable pub deque_scan : String → List (String × Value) → M W (StateCursor W Item)
  unfolding position_query
  deque_scan direction options = do
    query ← lift (position_query direction options)
    pure (stream_values query)

  unfoldable pub deque_commit : M W String
  unfolding run_state outcome_symbol
  deque_commit = do outcome ← run_state vm wait_commit; pure (outcome_symbol outcome)

  unfoldable pub deque_rollback : M W String
  unfolding run_state outcome_symbol
  deque_rollback = do
    outcome ← run_state vm (λ context. wait_rollback context >>= λ outcome. pure (ok outcome))
    pure (outcome_symbol outcome)
