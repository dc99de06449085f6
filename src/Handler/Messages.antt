-- ===== src/Handler/Messages.antt =====
-- ext/prosody/src/handler/message.rs and trigger.rs: what Ruby reads of a message, of an excise
-- record and of a timer. `Time.at` is called on the class `Time` of Ruby's module `Kernel`.
use prosody_rb.Base.{ℕ, ℤ, pos, String, Bool, Option, [], ◌∷◌}
use prosody_rb.Ruby.{Value, integer}
use prosody_rb.Ruby.Effects.{M, ◌>>=◌}
use prosody_rb.Ruby.Vm.{Vm}

-- `ConsumerMessage` of the core; an excise record is one whose payload is `Unit`.
pub record ConsumerMessage (Payload : Type 0) : Type 0 where
  pub topic : String
  pub partition : ℤ
  pub offset : ℤ
  pub key : String
  pub timestamp_micros : ℤ
  pub payload : Payload
  pub source_system : Option String
  pub response_requested : Bool

-- `Message` and `ExciseMessage`
pub record Message (Payload : Type 0) : Type 0 where
  pub inner : ConsumerMessage Payload

-- `Trigger` of the core: of its fields, the key and the time in whole seconds.
pub record Trigger : Type 0 where
  pub key : String
  pub epoch_seconds : ℕ

pub record Timer : Type 0 where
  pub inner : Trigger

module _ {Payload : Type 0} where
  -- `From`, and the way back.
  unfoldable pub wrap_message : ConsumerMessage Payload → Message Payload
  wrap_message inner = record { inner = inner }

  unfoldable pub consumer_message : Message Payload → ConsumerMessage Payload
  consumer_message m = m.inner

  unfoldable pub topic : Message Payload → String
  topic m = m.inner.topic

  unfoldable pub partition : Message Payload → ℤ
  partition m = m.inner.partition

  unfoldable pub offset : Message Payload → ℤ
  offset m = m.inner.offset

  unfoldable pub message_key : Message Payload → String
  message_key m = m.inner.key

  unfoldable pub source_system : Message Payload → Option String
  source_system m = m.inner.source_system

  unfoldable pub response_requested : Message Payload → Bool
  response_requested m = m.inner.response_requested

  unfoldable pub message_payload :
      {W : Type 0} → (Payload → M W Value) → Message Payload → M W Value
  message_payload serialize m = serialize m.inner.payload

unfoldable pub wrap_timer : Trigger → Timer
wrap_timer inner = record { inner = inner }

unfoldable pub timer_key : Timer → String
timer_key t = t.inner.key

module _ {W : Type 0} (vm : Vm W) (kernel : Value) (to_symbol : String → Value) where
  -- `Time.at`, in microseconds.
  unfoldable pub message_timestamp : {Payload : Type 0} → Message Payload → M W Value
  message_timestamp m = do
    time ← vm.const_get kernel "Time"
    vm.funcall time "at" (integer m.inner.timestamp_micros ∷ to_symbol "microsecond" ∷ [])

  -- `Time.at`, in whole seconds.
  unfoldable pub timer_time : Timer → M W Value
  timer_time t = do
    time ← vm.const_get kernel "Time"
    vm.funcall time "at" (integer (pos t.inner.epoch_seconds) ∷ [])
