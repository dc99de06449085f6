-- ===== src/Handler/Run.antt =====
-- ext/prosody/src/handler/mod.rs: an event of Kafka or a timer is run as a Ruby task. The bridge,
-- the race of the task against cancellation, and the wait for the task's result are parameters.
mod Tests
pub mod Outcome
pub mod Worker
use prosody_rb.Base.{
  ℤ, String, Bool, true, false, Option, none, some, List, [], ◌∷◌, Result, ok, err, map_err,
  if◌then◌else◌,
}
use prosody_rb.Ruby.{Value, nil, Error, Message, lit, signed, number}
use prosody_rb.Ruby.Effects.{Eff, M, ◌>>=◌, ◌>>◌, lift, pure}
use prosody_rb.Bridge.{BridgeError}
use prosody_rb.Scheduler.{SchedulerError, Ran, schedule, cancel_token}
use prosody_rb.Scheduler.Delivery.{ProcessingError, ErrorCategory, classify_error}
use prosody_rb.Handler.Context.Timers.{TimerType, application, internal}

-- `RubyHandlerError`
pub data HandlerError : Type 0 where
  scheduler : SchedulerError → HandlerError
  bridge : BridgeError → HandlerError
  processing : ProcessingError → HandlerError

-- `ClassifyError::classify_error` of `RubyHandlerError`.
unfoldable pub classify_handler_error : HandlerError → ErrorCategory
classify_handler_error (scheduler _) = ErrorCategory.transient
classify_handler_error (bridge _) = ErrorCategory.transient
classify_handler_error (processing e) = classify_error e

-- What the handler reads of a consumer message; `()` and JSON payloads are passed to Ruby unread.
pub record ConsumerMessage : Type 0 where
  pub topic : String
  pub partition : ℤ
  pub offset : ℤ
  pub key : String
  pub response_requested : Bool

-- A trigger of the core: a timer of a key.
pub record Trigger : Type 0 where
  pub key : String
  pub time : Message
  pub timer_type : TimerType

-- What is submitted to Ruby: the task's name, its event context, the handler's method, and whether
-- the method's value is wanted.
pub record Task : Type 0 where
  pub task_id : Message
  pub event_context : List (String × Message)
  pub method : String
  pub keeps_result : Bool

-- The function of a task, which runs in Ruby: a result that nobody asked for is replaced by nil.
unfoldable pub task_body : {W : Type 0} → (String → M W Value) → Task → M W Value
task_body funcall task = do
  result ← funcall task.method
  pure (if task.keeps_result then result else nil)

-- `tokio::select!` over the task's result and the cancellation of the event.
pub data Race (Json : Type 0) : Type 0 where
  finished : Result ProcessingError Json → Race Json
  cancelled : Race Json

pub record HandlerWorld (W Token Json : Type 0) : Type 0 where
  pub error_text : Error → String
  pub run_submit : Task → W → Ran Token × W
  pub select : Token → W → Race Json × W
  pub run_cancel : Token → W → Ran (Unit {0}) × W
  pub await_result : Token → Eff ProcessingError W Json
  pub null : Json

-- `?` with a conversion of the error.
abbrev pub from_error : {E E' W A : Type 0} → (E → E') → Eff E W A → Eff E' W A
from_error f m w = (map_err f (m w).0, (m w).1)

module _ {W Token Json : Type 0} (o : HandlerWorld W Token Json) where
  open o use {error_text, run_submit, select, run_cancel, await_result, null}

  -- A cancelled task is asked to stop, and its own result is awaited.
  unfoldable pub cancel_task : Token → Eff HandlerError W Json
  cancel_task token = do
    from_error scheduler (cancel_token error_text run_cancel token)
    from_error processing (await_result token)

  unfoldable pub after_race : Token → Race Json × W → Result HandlerError Json × W
  unfolding cancel_task
  after_race token (finished r, w) = (map_err processing r, w)
  after_race token (cancelled, w) = cancel_task token w

  -- The block that both handlers run: schedule, wait, and cancel if the event is cancelled first.
  unfoldable pub run_task : Task → Eff HandlerError W Json
  unfolding after_race
  run_task task = do
    token ← from_error scheduler (schedule error_text run_submit task)
    λ w. after_race token (select token w)

  -- `handle_record`, for a method and an event type.
  unfoldable pub handle_record : String → String → ConsumerMessage → Eff HandlerError W Json
  unfolding run_task
  handle_record method event_type m = run_task (record {
    task_id = lit m.topic ∷ lit "/" ∷ signed m.partition ∷ lit ":" ∷ signed m.offset ∷ [];
    event_context =
        ("event_type", lit event_type ∷ [])
        ∷ ("topic", lit m.topic ∷ [])
        ∷ ("partition", signed m.partition ∷ [])
        ∷ ("key", lit m.key ∷ [])
        ∷ ("offset", signed m.offset ∷ [])
        ∷ [];
    method = method;
    keeps_result = m.response_requested;
  })

  unfoldable pub on_message : ConsumerMessage → Eff HandlerError W Json
  unfolding handle_record
  on_message m = handle_record "on_message" "message" m

  unfoldable pub on_excise : ConsumerMessage → Eff HandlerError W Json
  unfolding handle_record
  on_excise m = handle_record "on_excise" "excise" m

  abbrev timer_task : Trigger → Task
  timer_task t = record {
    task_id = lit "timer/" ∷ lit t.key ∷ lit "/" ∷ t.time;
    event_context =
        ("event_type", lit "timer" ∷ []) ∷ ("key", lit t.key ∷ []) ∷ ("time", t.time) ∷ [];
    method = "on_timer";
    keeps_result = false;
  }

  abbrev timer_of_type : TimerType → Trigger → Eff HandlerError W Json
  timer_of_type application t = run_task (timer_task t)
  timer_of_type (internal _) t = pure null

  -- Timers of the middleware are left alone.
  unfoldable pub on_timer : Trigger → Eff HandlerError W Json
  unfolding run_task
  on_timer t = timer_of_type t.timer_type t
