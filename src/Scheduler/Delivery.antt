-- ===== src/Scheduler/Delivery.antt =====
-- ext/prosody/src/scheduler/result.rs: the one-shot channel from a Ruby task to the Rust side. The
-- methods that are called on a Ruby exception, and the conversion of a value to JSON, are
-- parameters.
pub mod Once
use mathlib.Core.Option
use prosody_rb.Base.{
  ℕ, suc, String, Bool, true, false, Option, none, some, List, [], ◌∷◌, Result, ok, err, ◌>>=◌,
  map_err, length, if◌then◌else◌,
}
use prosody_rb.Ruby.{Value, Error, new, argument_error, lit, number}

pub data ProcessingError : Type 0 where
  transient permanent : String → ProcessingError
  closed : ProcessingError

-- `ErrorCategory` of the core, as far as this code names it.
pub data ErrorCategory : Type 0 where
  transient permanent : ErrorCategory

-- `ClassifyError::classify_error` of `ProcessingError`.
unfoldable pub classify_error : ProcessingError → ErrorCategory
classify_error (ProcessingError.transient _) = ErrorCategory.transient
classify_error closed = ErrorCategory.transient
classify_error (ProcessingError.permanent _) = ErrorCategory.permanent

-- What the code calls on Ruby values.
pub record Exceptions (Json : Type 0) : Type 0 where
  -- `permanent?`, converted to a Boolean.
  pub is_permanent : Value → Result Error Bool
  pub full_message : Value → Result Error String
  pub inspect : Value → Result Error String
  pub to_string : Value → String
  -- `serde_magnus::deserialize`, with the text of its error.
  pub deserialize : Value → Result String Json
  -- `bool::try_convert`
  pub try_convert : Value → Result Error Bool

-- The sending half inside its `AtomicTake`.
pub data Sender : Type 0 where
  held taken dropped : Sender

-- `ResultSender` and `ResultReceiver` on one channel, with the value that lies in it.
pub record ResultChannel (Json : Type 0) : Type 0 where
  pub sender : Sender
  pub receiver_alive : Bool
  pub slot : Option (Result ProcessingError Json)

unfoldable pub result_channel : {Json : Type 0} → ResultChannel Json
result_channel = record { sender = held; receiver_alive = true; slot = none }

-- What the receiver finds: nothing yet, or the end of its wait.
pub data Received (Json : Type 0) : Type 0 where
  waiting : Received Json
  received : Result ProcessingError Json → Received Json

module _ {Json : Type 0} where
  -- `oneshot::Sender::send`, which fails when the receiver is gone.
  abbrev pub put : Result ProcessingError Json → ResultChannel Json → ResultChannel Json × Bool
  put r c = (record c { slot = if c.receiver_alive then some r else c.slot }, c.receiver_alive)

  -- `ResultReceiver::receive`: `Closed` when the sender is gone and has sent nothing.
  unfoldable pub receive : ResultChannel Json → Received Json
  receive c = elim c.slot [
    | some r ↦ received r
    | none ↦ elim c.sender [
      | held ↦ waiting
      | taken ↦ received (err closed)
      | dropped ↦ received (err closed)
    ]
  ]

-- What can happen to a channel: Ruby calls the proc, or either end is dropped.
pub data Event : Type 0 where
  call : List Value → Event
  drop_sender drop_receiver : Event

module _ {Json : Type 0} (x : Exceptions Json) where
  open x use {is_permanent, full_message, inspect, to_string, deserialize, try_convert}

  abbrev or_default : {A : Type 0} → A → Result Error A → A
  or_default a (ok b) = b
  or_default a (err e) = a

  -- `full_message`, or else `inspect`, or else the value's own text.
  unfoldable pub error_string : Value → String
  error_string v = elim (full_message v) [ ok s ↦ s | err _ ↦ or_default (to_string v) (inspect v) ]

  -- The error of a failed task: permanent only if `permanent?` says so.
  unfoldable pub failure : Value → ProcessingError
  unfolding error_string
  failure v =
      if or_default false (is_permanent v)
      then ProcessingError.permanent (error_string v)
      else ProcessingError.transient (error_string v)

  unfoldable pub success : Value → Result ProcessingError Json
  success v = map_err ProcessingError.transient (deserialize v)

  -- `ResultSender::send`. A success reports `true` also when the receiver is gone; a failure does
  -- not.
  abbrev send_taken : Bool → Value → ResultChannel Json → ResultChannel Json × Bool
  send_taken true v c = ((put (success v) c).0, true)
  send_taken false v c = put (err (failure v)) c

  unfoldable pub send : Bool → Value → ResultChannel Json → ResultChannel Json × Bool
  unfolding success failure
  send is_success v c = elim c.sender [
    | held ↦ send_taken is_success v (record c { sender = taken })
    | taken ↦ (c, false)
    | dropped ↦ (c, false)
  ]

  abbrev pub wrong_arguments : ℕ → Error
  wrong_arguments n =
      new argument_error (lit "Expected two arguments but received " ∷ number n ∷ [])

  -- The Ruby proc of `ResultSender::into_proc`.
  unfoldable pub call_proc :
      List Value → ResultChannel Json → ResultChannel Json × Result Error Bool
  unfolding send
  call_proc (is_success ∷ result ∷ _) c = elim (try_convert is_success) [
    | ok b ↦ ((send b result c).0, ok (send b result c).1)
    | err e ↦ (c, err e)
  ]
  call_proc (v ∷ []) c = (c, err (wrong_arguments 1))
  call_proc [] c = (c, err (wrong_arguments 0))

  abbrev drop_held : Sender → Sender
  drop_held held = dropped
  drop_held taken = taken
  drop_held dropped = dropped

  unfoldable pub step : ResultChannel Json → Event → ResultChannel Json × Bool
  unfolding call_proc
  step c (call args) = ((call_proc args c).0, or_default false (call_proc args c).1)
  step c drop_sender = (record c { sender = drop_held c.sender }, false)
  step c drop_receiver = (record c { receiver_alive = false }, false)

  -- The channel after the events, and how many calls of the proc answered `true`.
  unfoldable pub run : ResultChannel Json → List Event → ResultChannel Json × ℕ
  run c [] = (c, 0)
  run c (e ∷ events) =
      let (c', sent) = step c e in let (c'', n) = run c' events in (c'', if sent then suc n else n)
