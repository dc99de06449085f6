-- ===== src/Logging/Forward.antt =====
-- `Logger::new` of ext/prosody/src/logging.rs: the channel of log events and the task that forwards
-- them, as tracing, the task, the Ruby thread and the bridge's replies take turns. The task takes
-- events as `for_each_concurrent` does: it makes the futures of at most a limit of them at once, and
-- polls them in an order of its own.
pub mod Once
use prosody_rb.Base.{
  ◌+◌, ℕ, String, Bool, true, Option, none, some, List, [], ◌∷◌, ◌++◌, Result, ok, err, ltb, length,
  get_elem?, remove, if◌then◌else◌,
}
use prosody_rb.Bridge.{BridgeError, Channel, send}
use prosody_rb.Logging.{Level, Field, Formats, Metadata, log_method, log_event, on_event}

abbrev pub Line : Type 0
Line = Level × String

-- `CONCURRENT_LOG_REQUESTS`
abbrev pub concurrent_log_requests : Option ℕ
concurrent_log_requests = some 16

-- The channel that `tx` sends on, the events whose future is made and not polled yet, those whose
-- `log_event` has begun and not ended, the commands on the bridge, and the calls of Ruby's logger and the reports so far.
pub record Logger : Type 0 where
  pub queue : List Line
  pub created : List Line
  pub running : List Line
  pub bridge : Channel Line
  pub logged : List (String × String)
  pub reports : List String

pub data Event (F64 Failure Debugged : Type 0) : Type 0 where
  emits : Metadata → List (Field F64 Failure Debugged) → Event F64 Failure Debugged
  takes runs : Event F64 Failure Debugged
  begins : ℕ → Event F64 Failure Debugged
  ends : ℕ → Result String (Result String (Unit {0})) → Event F64 Failure Debugged

abbrev pub report : String → Logger → Logger
report error l = record l { reports = l.reports ++ (error ∷ []) }

abbrev pub has_room : Option ℕ → ℕ → Bool
has_room none running = true
has_room (some limit) running = ltb running limit

-- The first poll of a `log_event`: its command goes to the bridge.
unfoldable pub begin_log : (BridgeError → String) → Bool → Line → Logger → Logger
unfolding send log_event
begin_log display receiver_alive line l = elim (send receiver_alive line l.bridge) [
  | ok bridge ↦ record l { running = l.running ++ (line ∷ []); bridge = bridge }
  | err error ↦ log_event (λ method. λ text. λ w. (err (display error), w)) report line l
]

-- The task takes the next event, if there is one and it has room, and makes its future.
abbrev pub take_first : List Line → Logger → Logger
take_first [] l = l
take_first (line ∷ rest) l =
    if has_room concurrent_log_requests (length l.created + length l.running)
    then record l { queue = rest; created = l.created ++ (line ∷ []) }
    else l

unfoldable pub take_event : Logger → Logger
take_event l = take_first l.queue l

-- The task polls one of the futures that it has not polled yet.
unfoldable pub first_poll : (BridgeError → String) → Bool → ℕ → Logger → Logger
unfolding begin_log
first_poll display receiver_alive i l = elim (get_elem? l.created i) [
  | none ↦ l
  | some line ↦ begin_log display receiver_alive line (record l { created = remove i l.created })
]

abbrev pub run_first : List Line → Logger → Logger
run_first [] l = l
run_first ((level, text) ∷ rest) l = record l {
  bridge = record { queue = rest; connected = l.bridge.connected };
  logged = l.logged ++ ((log_method level, text) ∷ []);
}

-- The Ruby thread runs the next command of the bridge.
unfoldable pub run_command : Logger → Logger
unfolding log_method
run_command l = run_first l.bridge.queue l

-- The second half of `log_event`: the reply comes, in any order.
unfoldable pub end_log : ℕ → Result String (Result String (Unit {0})) → Logger → Logger
unfolding log_event
end_log i reply l = elim (get_elem? l.running i) [
  | none ↦ l
  | some line ↦
      log_event (λ method. λ text. λ w. (reply, w)) report line
        (record l { running = remove i l.running })
]

module _ {F64 Failure Debugged : Type 0} (formats : Formats F64 Failure Debugged)
    (display : BridgeError → String) (receiver_alive : Bool) where
  -- The task holds the receiving half, so a send on `tx` succeeds.
  unfoldable pub forward : Event F64 Failure Debugged → Logger → Logger
  unfolding on_event take_event first_poll run_command end_log
  forward (emits md fields) l =
      on_event formats (λ line. λ w. (ok tt, record w { queue = w.queue ++ (line ∷ []) }))
        (λ error. λ text. report error) md fields l
  forward takes l = take_event l
  forward (begins i) l = first_poll display receiver_alive i l
  forward runs l = run_command l
  forward (ends i reply) l = end_log i reply l

  unfoldable pub forward_all : List (Event F64 Failure Debugged) → Logger → Logger
  unfolding forward
  forward_all [] l = l
  forward_all (e ∷ events) l = forward_all events (forward e l)

abbrev pub new_logger : Logger
new_logger = record {
  queue = [];
  created = [];
  running = [];
  bridge = record { queue = []; connected = true };
  logged = [];
  reports = [];
}
