-- ===== src/Handler/Context/Vending.antt =====
-- ext/prosody/src/handler/context/vending.rs: an event's context hands out the handles of its
-- collections. The handle of a collection is the core's, whose operations the methods of the handle
-- call. `RString::to_string` and the core's seven openings are parameters.
use prosody_rb.Base.{String, Result}
use prosody_rb.Ruby.{Value, Error}
use prosody_rb.Ruby.Effects.{M, ◌>>=◌, lift}
use prosody_rb.Ruby.Vm.{Vm}
use prosody_rb.Handler.State.Handles.{ErasedStateError, ValueState, state_error, or_raise}
use prosody_rb.Handler.State.Map.{MapState}
use prosody_rb.Handler.State.Set.{SetState}
use prosody_rb.Handler.State.Deque.{DequeState}

-- The event context of the core: a collection by its name.
pub record Collections (W Json Wrapped : Type 0) : Type 0 where
  pub open_value : String → Result ErasedStateError (ValueState W Json)
  pub open_map : String → Result ErasedStateError (MapState W Json)
  pub open_set : String → Result ErasedStateError (SetState W)
  pub open_deque : String → Result ErasedStateError (DequeState W Json)
  pub open_message_value : String → Result ErasedStateError (ValueState W Wrapped)
  pub open_message_map : String → Result ErasedStateError (MapState W Wrapped)
  pub open_message_deque : String → Result ErasedStateError (DequeState W Wrapped)

module _ {W : Type 0} (vm : Vm W) where
  unfoldable pub vend : {Handle : Type 0} → Result ErasedStateError Handle → M W Handle
  unfolding state_error
  vend handle = or_raise vm handle

  module _ {Json Wrapped : Type 0} (to_string : Value → Result Error String)
      (inner : Collections W Json Wrapped) where
    unfoldable pub value_state : Value → M W (ValueState W Json)
    unfolding vend
    value_state name = do text ← lift (to_string name); vend (inner.open_value text)

    unfoldable pub map_state : Value → M W (MapState W Json)
    unfolding vend
    map_state name = do text ← lift (to_string name); vend (inner.open_map text)

    unfoldable pub set_state : Value → M W (SetState W)
    unfolding vend
    set_state name = do text ← lift (to_string name); vend (inner.open_set text)

    unfoldable pub deque_state : Value → M W (DequeState W Json)
    unfolding vend
    deque_state name = do text ← lift (to_string name); vend (inner.open_deque text)

    unfoldable pub message_value_state : Value → M W (ValueState W Wrapped)
    unfolding vend
    message_value_state name = do text ← lift (to_string name); vend (inner.open_message_value text)

    unfoldable pub message_map_state : Value → M W (MapState W Wrapped)
    unfolding vend
    message_map_state name = do text ← lift (to_string name); vend (inner.open_message_map text)

    unfoldable pub message_deque_state : Value → M W (DequeState W Wrapped)
    unfolding vend
    message_deque_state name = do text ← lift (to_string name); vend (inner.open_message_deque text)
