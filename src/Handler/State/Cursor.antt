-- ===== src/Handler/State/Cursor.antt =====
-- ext/prosody/src/handler/state/scan.rs: the handle of a scan is a cursor of the core, which a Ruby
-- loop (`each_chunk` of lib/prosody/state.rb) reads in chunks.
pub mod Traverse
mod Tests
use prosody_rb.Base.{ℕ, zero, suc, String, Option, none, some, List, [], ◌++◌, Result}
use prosody_rb.Ruby.{Value, string}
use prosody_rb.Ruby.Effects.{M, ◌>>=◌, and_then, pure, collect_effects}
use prosody_rb.Ruby.Vm.{Vm, Carrier}
use prosody_rb.Handler.State.Handles.{ErasedStateError, run_state}

-- A cursor of the core. Closing it cannot fail in the core.
pub record StateCursor (W Item : Type 0) : Type 0 where
  pub wait_next_ready_chunk : ℕ → Carrier → M W (Result ErasedStateError (Option (List Item)))
  pub wait_close : M W (Unit {0})

abbrev pub scan_ready_chunk_size : ℕ
scan_ready_chunk_size = 256

module _ {W Item : Type 0} (vm : Vm W) (convert : Item → M W Value)
    (cursor : StateCursor W Item) where
  -- `ary_try_from_iter` of a chunk, which stops at the first item that does not convert.
  abbrev pub convert_chunk : Option (List Item) → M W (Option (List Value))
  convert_chunk none = pure none
  convert_chunk (some items) = do array ← collect_effects convert items; pure (some array)

  unfoldable pub next_chunk : M W (Option (List Value))
  unfolding run_state
  next_chunk = do
    items ← run_state vm (cursor.wait_next_ready_chunk scan_ready_chunk_size)
    convert_chunk items

  unfoldable pub close : M W (Unit {0})
  close = cursor.wait_close

-- The conversions of the five scans. A payload is converted by `serialize`, or wrapped.
module _ {W : Type 0} (pair : Value → Value → Value) where
  unfoldable pub json_deque_item : {Json : Type 0} → (Json → M W Value) → Json → M W Value
  json_deque_item serialize item = serialize item

  unfoldable pub json_map_item : {Json : Type 0} → (Json → M W Value) → String × Json → M W Value
  json_map_item serialize (key, value) = do
    converted ← serialize value
    pure (pair (string key) converted)

  unfoldable pub message_deque_item : {Wrapped : Type 0} → (Wrapped → Value) → Wrapped → M W Value
  message_deque_item wrap item = pure (wrap item)

  unfoldable pub message_map_item :
      {Wrapped : Type 0} → (Wrapped → Value) → String × Wrapped → M W Value
  message_map_item wrap (key, message) = pure (pair (string key) (wrap message))

  unfoldable pub map_key_item : String → M W Value
  map_key_item key = pure (string key)
