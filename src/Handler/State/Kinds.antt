-- ===== src/Handler/State/Kinds.antt =====
-- The payload kinds of the keyed-state handles: the uses of the macros `value_state` and `map_state`
-- in ext/prosody/src/handler/state/mod.rs and of `deque_state` in deque.rs. The conversions of
-- `serde_magnus` and the wrapper of a Ruby message are parameters.
pub mod Messages
mod Tests
use prosody_rb.Base.{String, Option, Result}
use prosody_rb.Ruby.{Value}
use prosody_rb.Ruby.Effects.{M}
use prosody_rb.Ruby.Vm.{Vm}
use prosody_rb.Handler.State.Handles.{json_write_item, message_write_item, message_or_nil}

-- `$prepare` and `$restore`
pub record Conversions (W Item : Type 0) : Type 0 where
  pub prepare : Value → M W Item
  pub restore : Option Item → M W Value

module _ {W Json : Type 0} (vm : Vm W) (deserialize : Value → Result String Json)
    (serialize : Option Json → M W Value) where
  unfoldable pub json_value : Conversions W Json
  unfolding json_write_item
  json_value = record { prepare = json_write_item vm deserialize; restore = serialize }

  unfoldable pub json_map : Conversions W Json
  unfolding json_write_item
  json_map = record { prepare = json_write_item vm deserialize; restore = serialize }

  unfoldable pub json_deque : Conversions W Json
  unfolding json_write_item
  json_deque = record { prepare = json_write_item vm deserialize; restore = serialize }

module _ {W Wrapped : Type 0} (vm : Vm W) (try_convert : Value → Option Wrapped)
    (wrap : Wrapped → Value) where
  unfoldable pub message_value : Conversions W Wrapped
  unfolding message_write_item message_or_nil
  message_value = record {
    prepare = message_write_item vm try_convert "; use clear to delete a message value collection";
    restore = message_or_nil wrap;
  }

  unfoldable pub message_map : Conversions W Wrapped
  unfolding message_write_item message_or_nil
  message_map = record {
    prepare = message_write_item vm try_convert "; use delete(key) to remove a message map entry";
    restore = message_or_nil wrap;
  }

  unfoldable pub message_deque : Conversions W Wrapped
  unfolding message_write_item message_or_nil
  message_deque = record {
    prepare = message_write_item vm try_convert " to push into a message deque";
    restore = message_or_nil wrap;
  }
