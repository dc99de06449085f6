-- ===== src/Published.antt =====
-- ext/prosody/src/published.rs: handles that read published state. The core's readers are
-- parameters; a stream of theirs is lazy, so making one has no effect.
mod Tests
pub mod Forked
use prosody_rb.Base.{ℕ, String, Bool, Option, List, Result}
use prosody_rb.Ruby.{Value, Error}
use prosody_rb.Ruby.Effects.{M, ◌>>=◌, ◌>>◌, and_then, pure, lift}
use prosody_rb.Ruby.Vm.{Vm, Carrier}
use prosody_rb.Util.ForkGuard.{ForkGuard}
use prosody_rb.Handler.State.Handles.{ErasedStateError, run_state}
use prosody_rb.Handler.State.Cursor.{StateCursor}
use prosody_rb.Handler.State.Query.{Query, key_query, position_query}
use prosody_rb.Client.Calls.{check_fork}

-- `Reads`, whose bridge and propagator are the parameters of the calls.
pub record Reads : Type 0 where
  pub fork : ForkGuard

-- A read of the core.
abbrev pub Read : Type 0 → Type 0 → Type 0
Read W A = Carrier → M W (Result ErasedStateError A)

-- The readers of the core, of values, maps, sets and deques.
pub record SharedValueReader (W Json : Type 0) : Type 0 where
  pub wait_get : String → Read W (Option Json)

pub record SharedMapReader (W Json : Type 0) : Type 0 where
  pub wait_get : String → String → Read W (Option Json)
  pub wait_get_many : String → List String → Read W (List (Option Json))
  pub wait_contains_many : String → List String → Read W (List Bool)
  pub wait_is_empty : String → Read W Bool
  pub wait_contains_key : String → String → Read W Bool
  pub stream_entries : String → Query String → StateCursor W (String × Json)
  pub stream_keys : String → Query String → StateCursor W String

pub record SharedSetReader (W : Type 0) : Type 0 where
  pub wait_contains : String → String → Read W Bool
  pub wait_contains_many : String → List String → Read W (List Bool)
  pub wait_is_empty : String → Read W Bool
  pub stream_keys : String → Query String → StateCursor W String

pub record SharedDequeReader (W Json : Type 0) : Type 0 where
  pub wait_get : String → ℕ → Read W (Option Json)
  pub wait_len : String → Read W ℕ
  pub wait_is_empty : String → Read W Bool
  pub wait_peek_front : String → Read W (Option Json)
  pub wait_peek_back : String → Read W (Option Json)
  pub stream_values : String → Query ℕ → StateCursor W Json

module _ {W : Type 0} (vm : Vm W) (reads : Reads) where
  -- `Reads::read`
  unfoldable pub read : {A : Type 0} → Read W A → M W A
  unfolding check_fork run_state
  read operation = check_fork vm reads.fork >> run_state vm operation

  -- `Reads::read_json`, where `serialize` is that of `serde_magnus`.
  unfoldable pub read_json :
      {Json : Type 0} → (Option Json → M W Value) → Read W (Option Json) → M W Value
  unfolding read
  read_json serialize operation = do item ← read operation; serialize item

  -- `Reads::scan_parts`, whose results are the parameters of the calls.
  unfoldable pub scan_parts : M W (Unit {0})
  unfolding check_fork
  scan_parts = check_fork vm reads.fork

  unfoldable pub published_keys :
      (Value → Result Error String)
      → (Query String → StateCursor W String)
      → String
      → List (String × Value)
      → M W (StateCursor W String)
  unfolding key_query scan_parts
  published_keys try_convert stream direction options = do
    query ← lift (key_query try_convert direction options)
    scan_parts
    pure (stream query)

  module _ {Json : Type 0} (serialize : Option Json → M W Value) where
    unfoldable pub published_value_get : SharedValueReader W Json → String → M W Value
    unfolding read_json
    published_value_get inner key = read_json serialize (inner.wait_get key)

    module _ (inner : SharedMapReader W Json) where
      unfoldable pub published_map_get : String → String → M W Value
      unfolding read_json
      published_map_get key map_key = read_json serialize (inner.wait_get key map_key)

      unfoldable pub published_map_get_many :
          (List (Option Json) → M W Value) → String → List String → M W Value
      unfolding read
      published_map_get_many serialize_all key map_keys = do
        items ← read (inner.wait_get_many key map_keys)
        serialize_all items

      unfoldable pub published_map_contains_many : String → List String → M W (List Bool)
      unfolding read
      published_map_contains_many key map_keys = read (inner.wait_contains_many key map_keys)

      unfoldable pub published_map_is_empty : String → M W Bool
      unfolding read
      published_map_is_empty key = read (inner.wait_is_empty key)

      unfoldable pub published_map_contains_key : String → String → M W Bool
      unfolding read
      published_map_contains_key key map_key = read (inner.wait_contains_key key map_key)

      unfoldable pub published_map_scan :
          (Value → Result Error String)
          → String
          → String
          → List (String × Value)
          → M W (StateCursor W (String × Json))
      unfolding key_query scan_parts
      published_map_scan try_convert key direction options = do
        query ← lift (key_query try_convert direction options)
        scan_parts
        pure (inner.stream_entries key query)

      unfoldable pub published_map_keys :
          (Value → Result Error String)
          → String
          → String
          → List (String × Value)
          → M W (StateCursor W String)
      unfolding published_keys
      published_map_keys try_convert key = published_keys try_convert (inner.stream_keys key)

    module _ (inner : SharedDequeReader W Json) where
      unfoldable pub published_deque_get : String → ℕ → M W Value
      unfolding read_json
      published_deque_get key index = read_json serialize (inner.wait_get key index)

      unfoldable pub published_deque_length : String → M W ℕ
      unfolding read
      published_deque_length key = read (inner.wait_len key)

      unfoldable pub published_deque_is_empty : String → M W Bool
      unfolding read
      published_deque_is_empty key = read (inner.wait_is_empty key)

      unfoldable pub published_deque_peek_front : String → M W Value
      unfolding read_json
      published_deque_peek_front key = read_json serialize (inner.wait_peek_front key)

      unfoldable pub published_deque_peek_back : String → M W Value
      unfolding read_json
      published_deque_peek_back key = read_json serialize (inner.wait_peek_back key)

      unfoldable pub published_deque_scan :
          String → String → List (String × Value) → M W (StateCursor W Json)
      unfolding position_query scan_parts
      published_deque_scan key direction options = do
        query ← lift (position_query direction options)
        scan_parts
        pure (inner.stream_values key query)

  module _ (inner : SharedSetReader W) where
    unfoldable pub published_set_contains : String → String → M W Bool
    unfolding read
    published_set_contains key member = read (inner.wait_contains key member)

    unfoldable pub published_set_contains_many : String → List String → M W (List Bool)
    unfolding read
    published_set_contains_many key members = read (inner.wait_contains_many key members)

    unfoldable pub published_set_is_empty : String → M W Bool
    unfolding read
    published_set_is_empty key = read (inner.wait_is_empty key)

    unfoldable pub published_set_keys :
        (Value → Result Error String)
        → String
        → String
        → List (String × Value)
        → M W (StateCursor W String)
    unfolding published_keys
    published_set_keys try_convert key = published_keys try_convert (inner.stream_keys key)
