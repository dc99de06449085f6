-- ===== src/Handler/State/Handles.antt =====
-- The handle of a single value in ext/prosody/src/handler/state/mod.rs, with the errors of state
-- operations. The operations of the core are parameters.
mod Tests
pub mod Laws
use prosody_rb.Base.{String, Option, none, some, List, [], ◌∷◌, Result, ok, err}
use prosody_rb.Ruby.{
  Value, nil, Error, ErrorClass, Message, new, transient_state_error, permanent_state_error, lit,
}
use prosody_rb.Ruby.Effects.{M, ◌>>=◌, ◌>>◌, and_then, pure}
use prosody_rb.Ruby.Vm.{Vm, Carrier, extract_opentelemetry_context}

-- `ErasedCategory` and `ErasedStateError` of the core.
pub data ErasedCategory : Type 0 where
  permanent transient : ErasedCategory

pub record ErasedStateError : Type 0 where
  pub category : ErasedCategory
  pub message : String

-- `StoreOutcome` of the core.
pub data StoreOutcome : Type 0 where
  applied no_op : StoreOutcome

unfoldable pub outcome_symbol : StoreOutcome → String
outcome_symbol applied = "applied"
outcome_symbol no_op = "no_op"

abbrev pub class_name : ErrorClass → String
class_name permanent_state_error = "PermanentStateError"
class_name transient_state_error = "TransientStateError"
class_name _ = ""

abbrev pub category_class : ErasedCategory → ErrorClass
category_class permanent = permanent_state_error
category_class transient = transient_state_error

module _ {W : Type 0} (vm : Vm W) where
  abbrev pub found : ErrorClass → Message → Result Error Value × W → Error × W
  found class message (ok _, w) = (new class message, w)
  found class message (err e, w) = (e, w)

  -- A class that is not found gives the error of its lookup.
  unfoldable pub ruby_error : ErrorClass → Message → W → Error × W
  ruby_error class message w =
      found class message (vm.const_get vm.root_module (class_name class) w)

  unfoldable pub state_error : ErasedStateError → W → Error × W
  unfolding ruby_error
  state_error e = ruby_error (category_class e.category) (lit e.message ∷ [])

  -- An error that is built by calls of Ruby.
  abbrev pub raise : {A : Type 0} → (W → Error × W) → M W A
  raise build w = (err (build w).0, (build w).1)

  abbrev pub or_raise : {A : Type 0} → Result ErasedStateError A → M W A
  or_raise (ok a) = pure a
  or_raise (err e) = raise (state_error e)

  unfoldable pub run_state : {A : Type 0} → (Carrier → M W (Result ErasedStateError A)) → M W A
  unfolding state_error
  run_state operation = do
    context ← extract_opentelemetry_context vm
    reply ← operation context
    or_raise reply

  -- A conversion of `serde_magnus` that fails with its error's text.
  unfoldable pub json_write_item : {Json : Type 0} → (Value → Result String Json) → Value → M W Json
  unfolding ruby_error
  json_write_item deserialize v = elim (deserialize v) [
    | ok json ↦ pure json
    | err error ↦ raise (
        ruby_error transient_state_error
          (lit "value is not representable as JSON: " ∷ lit error ∷ []))
  ]

  -- A message's item, if the argument is a `Prosody::Message`; `advice` ends the error's text.
  unfoldable pub message_write_item :
      {Wrapped : Type 0} → (Value → Option Wrapped) → String → Value → M W Wrapped
  unfolding ruby_error
  message_write_item try_convert advice v = elim (try_convert v) [
    | some message ↦ pure message
    | none ↦
        raise
          (ruby_error transient_state_error (lit "expected a Prosody::Message" ∷ lit advice ∷ []))
  ]

-- `message_or_nil`, where `wrap` makes the Ruby message.
unfoldable pub message_or_nil :
    {W Wrapped : Type 0} → (Wrapped → Value) → Option Wrapped → M W Value
message_or_nil wrap none = pure nil
message_or_nil wrap (some item) = pure (wrap item)

-- The operations of a value of the core.
pub record ValueState (W Item : Type 0) : Type 0 where
  pub wait_get : Carrier → M W (Result ErasedStateError (Option Item))
  pub wait_set : Item → Carrier → M W (Result ErasedStateError (Unit {0}))
  pub wait_clear : Carrier → M W (Result ErasedStateError (Unit {0}))
  pub wait_commit : Carrier → M W (Result ErasedStateError StoreOutcome)
  pub wait_rollback : Carrier → M W StoreOutcome

-- The methods that the macro `value_state` defines, for the conversions of its payload.
module _ {W Item : Type 0} (vm : Vm W) (state : ValueState W Item) (prepare : Value → M W Item)
    (restore : Option Item → M W Value) where
  open state use {wait_get, wait_set, wait_clear, wait_commit, wait_rollback}

  unfoldable pub value_get : M W Value
  unfolding run_state
  value_get = do item ← run_state vm wait_get; restore item

  unfoldable pub value_set : Value → M W (Unit {0})
  unfolding run_state
  value_set v = do item ← prepare v; run_state vm (wait_set item)

  unfoldable pub value_clear : M W (Unit {0})
  unfolding run_state
  value_clear = run_state vm wait_clear

  unfoldable pub value_commit : M W String
  unfolding run_state outcome_symbol
  value_commit = do outcome ← run_state vm wait_commit; pure (outcome_symbol outcome)

  unfoldable pub value_rollback : M W String
  unfolding run_state outcome_symbol
  value_rollback = do
    outcome ← run_state vm (λ context. wait_rollback context >>= λ outcome. pure (ok outcome))
    pure (outcome_symbol outcome)
