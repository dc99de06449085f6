-- ===== src/Logging.antt =====
-- ext/prosody/src/logging.rs: a tracing event becomes a line of text for Ruby's logger. Rust's
-- formatting of a value is a parameter, and so is the call of Ruby on the bridge.
mod Tests
pub mod Rendered
pub mod Forward
use prosody_rb.Base.{
  str_eq, ℕ, ℤ, String, ◌<>◌, Bool, Option, none, some, List, [], ◌∷◌, Result, ok, err,
  if◌then◌else◌,
}
use prosody_rb.Ruby.{Value, string}

-- `Level` of the crate `tracing`.
pub data Level : Type 0 where
  error warn info debug trace : Level

-- A recorded field, by the method of `Visit` that its value reaches.
pub data Field (F64 Failure Debugged : Type 0) : Type 0 where
  record_f64 : String → F64 → Field F64 Failure Debugged
  record_i64 record_i128 : String → ℤ → Field F64 Failure Debugged
  record_u64 record_u128 : String → ℕ → Field F64 Failure Debugged
  record_bool : String → Bool → Field F64 Failure Debugged
  record_str : String → String → Field F64 Failure Debugged
  record_error : String → Failure → Field F64 Failure Debugged
  record_debug : String → Debugged → Field F64 Failure Debugged

-- Rust's `Display` and `Debug` of the values.
pub record Formats (F64 Failure Debugged : Type 0) : Type 0 where
  pub f64 : F64 → String
  pub signed : ℤ → String
  pub unsigned : ℕ → String
  pub boolean : Bool → String
  pub failure : Failure → String
  pub debugged : Debugged → String

-- `Metadata` of an event.
pub record Metadata : Type 0 where
  pub level : Level
  pub is_event : Bool
  pub module_path : Option String
  pub line : Option ℕ

pub record Visitor : Type 0 where
  pub metadata : String
  pub maybe_message : Option String

unfoldable pub push_kv : String → String → Visitor → Visitor
push_kv key value v =
    if str_eq v.metadata ""
    then record v { metadata = key <> "=" <> value }
    else record v { metadata = v.metadata <> " " <> key <> "=" <> value }

abbrev pub push_given : String → Option String → Visitor → Visitor
push_given key none v = v
push_given key (some value) v = push_kv key value v

module _ {F64 Failure Debugged : Type 0} (formats : Formats F64 Failure Debugged) where
  abbrev pub line_text : Option ℕ → Option String
  line_text none = none
  line_text (some n) = some (formats.unsigned n)

  -- `Visitor::new`
  unfoldable pub new_visitor : Metadata → Visitor
  unfolding push_kv
  new_visitor md =
      push_given "line" (line_text md.line)
        (push_given "module" md.module_path (record { metadata = ""; maybe_message = none }))

  -- The methods of `Visit`.
  unfoldable pub visit : Field F64 Failure Debugged → Visitor → Visitor
  unfolding push_kv
  visit (record_f64 name value) v = push_kv name (formats.f64 value) v
  visit (record_i64 name value) v = push_kv name (formats.signed value) v
  visit (record_i128 name value) v = push_kv name (formats.signed value) v
  visit (record_u64 name value) v = push_kv name (formats.unsigned value) v
  visit (record_u128 name value) v = push_kv name (formats.unsigned value) v
  visit (record_bool name value) v = push_kv name (formats.boolean value) v
  visit (record_str name value) v = push_kv name value v
  visit (record_error name value) v = push_kv name (formats.failure value) v
  visit (record_debug name value) v =
      if str_eq name "message"
      then record v { maybe_message = some (formats.debugged value) }
      else push_kv name (formats.debugged value) v

  -- `event.record(&mut visitor)`
  abbrev pub visit_all : List (Field F64 Failure Debugged) → Visitor → Visitor
  visit_all [] v = v
  visit_all (f ∷ fields) v = visit_all fields (visit f v)

-- `Display for Visitor`
unfoldable pub to_string : Visitor → String
to_string v = elim v.maybe_message [
  | none ↦ v.metadata
  | some message ↦ message <> " " <> v.metadata
]

-- The method of Ruby's logger.
unfoldable pub log_method : Level → String
log_method error = "error"
log_method warn = "warn"
log_method info = "info"
log_method debug = "debug"
log_method trace = "debug"

module _ {W : Type 0} where
  -- `log_event`. The first error is the bridge's, the second the logger's; both are reported.
  unfoldable pub log_event :
      (String → String → W → Result String (Result String (Unit {0})) × W)
      → (String → W → W)
      → Level × String
      → W
      → W
  unfolding log_method
  log_event run report (level, text) w =
      let (reply, w') = run (log_method level) text w in
      elim reply [
        | err e ↦ report e w'
        | ok logged ↦ elim logged [ ok _ ↦ w' | err e ↦ report e w' ]
      ]

  -- `on_event`, where `send` fails if the channel is closed.
  unfoldable pub on_event :
      {F64 Failure Debugged : Type 0}
      → Formats F64 Failure Debugged
      → (Level × String → W → Result String (Unit {0}) × W)
      → (String → String → W → W)
      → Metadata
      → List (Field F64 Failure Debugged)
      → W
      → W
  unfolding new_visitor visit to_string
  on_event formats send report md fields w =
      let text = to_string (visit_all formats fields (new_visitor formats md)) in
      let (sent, w') = send (md.level, text) w in
      if md.is_event then elim sent [ ok _ ↦ w' | err e ↦ report e text w' ] else w
