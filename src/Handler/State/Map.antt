-- ===== src/Handler/State/Map.antt =====
-- The handle of an ordered map, the macro `map_state` of ext/prosody/src/handler/state/mod.rs. A
-- stream of the core is lazy, so making one has no effect.
mod Tests
pub mod Entries
pub mod Refines
use prosody_rb.Base.{String, Bool, Option, List, Result, ok}
use prosody_rb.Ruby.{Value, Error}
use prosody_rb.Ruby.Effects.{M, ◌>>=◌, pure, lift, collect_effects}
use prosody_rb.Ruby.Vm.{Vm, Carrier}
use prosody_rb.Handler.State.Handles.{ErasedStateError, StoreOutcome, outcome_symbol, run_state}
use prosody_rb.Handler.State.Cursor.{StateCursor}
use prosody_rb.Handler.State.Query.{Query, key_query}

-- The operations of a map of the core.
pub record MapState (W Item : Type 0) : Type 0 where
  pub wait_get : String → Carrier → M W (Result ErasedStateError (Option Item))
  pub wait_contains_key : String → Carrier → M W (Result ErasedStateError Bool)
  pub wait_is_empty : Carrier → M W (Result ErasedStateError Bool)
  pub wait_get_many : List String → Carrier → M W (Result ErasedStateError (List (Option Item)))
  pub wait_contains_many : List String → Carrier → M W (Result ErasedStateError (List Bool))
  pub wait_set : String → Item → Carrier → M W (Result ErasedStateError (Unit {0}))
  pub wait_remove : String → Carrier → M W (Result ErasedStateError (Unit {0}))
  pub wait_clear : Carrier → M W (Result ErasedStateError (Unit {0}))
  pub stream_entries : Query String → StateCursor W (String × Item)
  pub stream_keys : Query String → StateCursor W String
  pub wait_commit : Carrier → M W (Result ErasedStateError StoreOutcome)
  pub wait_rollback : Carrier → M W StoreOutcome

module _ {W Item : Type 0} (vm : Vm W) (state : MapState W Item) (prepare : Value → M W Item)
    (restore : Option Item → M W Value) where
  open state use {
    wait_get, wait_contains_key, wait_is_empty, wait_get_many, wait_contains_many, wait_set,
    wait_remove, wait_clear, stream_entries, stream_keys, wait_commit, wait_rollback,
  }

  unfoldable pub map_get : String → M W Value
  unfolding run_state
  map_get key = do item ← run_state vm (wait_get key); restore item

  unfoldable pub map_contains_key : String → M W Bool
  unfolding run_state
  map_contains_key key = run_state vm (wait_contains_key key)

  unfoldable pub map_is_empty : M W Bool
  unfolding run_state
  map_is_empty = run_state vm wait_is_empty

  -- The array of the values, in the order of the keys.
  unfoldable pub map_get_many : List String → M W (List Value)
  unfolding run_state
  map_get_many keys = do items ← run_state vm (wait_get_many keys); collect_effects restore items

  unfoldable pub map_contains_many : List String → M W (List Bool)
  unfolding run_state
  map_contains_many keys = run_state vm (wait_contains_many keys)

  unfoldable pub map_set : String → Value → M W (Unit {0})
  unfolding run_state
  map_set key v = do item ← prepare v; run_state vm (wait_set key item)

  unfoldable pub map_remove : String → M W (Unit {0})
  unfolding run_state
  map_remove key = run_state vm (wait_remove key)

  unfoldable pub map_clear : M W (Unit {0})
  unfolding run_state
  map_clear = run_state vm wait_clear

  unfoldable pub map_scan :
      (Value → Result Error String)
      → String
      → List (String × Value)
      → M W (StateCursor W (String × Item))
  unfolding key_query
  map_scan try_convert direction options = do
    query ← lift (key_query try_convert direction options)
    pure (stream_entries query)

  unfoldable pub map_keys :
      (Value → Result Error String) → String → List (String × Value) → M W (StateCursor W String)
  unfolding key_query
  map_keys try_convert direction options = do
    query ← lift (key_query try_convert direction options)
    pure (stream_keys query)

  unfoldable pub map_commit : M W String
  unfolding run_state outcome_symbol
  map_commit = do outcome ← run_state vm wait_commit; pure (outcome_symbol outcome)

  unfoldable pub map_rollback : M W String
  unfolding run_state outcome_symbol
  map_rollback = do
    outcome ← run_state vm (λ context. wait_rollback context >>= λ outcome. pure (ok outcome))
    pure (outcome_symbol outcome)
