-- ===== src/Logging/Tests.antt =====
-- An event with a message between two fields.
use mathlib.Core.List.{map, Perm}
use prosody_rb.Bridge.{BridgeError}
use prosody_rb.Logging.Forward.{Event, emits, takes, begins, runs, ends, forward_all, new_logger}
use prosody_rb.Logging.Forward.Once.{emitted, call_of, calls, requests, forward_all-once}
use prosody_rb.Base.{ok, ◌≤◌, ℕ, ◌≡◌, refl, true, String, some, List, [], ◌∷◌, if◌then◌else◌}
use prosody_rb.Logging.{
  info, Field, record_bool, record_str, record_debug, Formats, Metadata, new_visitor, visit,
  visit_all, push_kv, to_string,
}
use prosody_rb.Logging.Rendered.{joined, line_of, to_string-pairs}

-- Numbers are shown by one text, which is enough here.
abbrev formats : Formats ℕ String String
formats = record {
  f64 = λ x. "1.5";
  signed = λ z. "-3";
  unsigned = λ n. "7";
  boolean = λ b. if b then "true" else "false";
  failure = λ e. e;
  debugged = λ d. d;
}

abbrev md : Metadata
md = record { level = info; is_event = true; module_path = some "client"; line = some 7 }

abbrev fields : List (Field ℕ String String)
fields = record_str "topic" "orders" ∷ record_debug "message" "sent" ∷ record_bool "retry" true ∷ []

line :
    to_string (visit_all formats fields (new_visitor formats md))
    ≡ "sent module=client line=7 topic=orders retry=true"
unfolding to_string new_visitor visit push_kv
line = refl

to_string-pairs_example :
    to_string (visit_all formats fields (new_visitor formats md))
    ≡ line_of (some "sent") (
        joined
          (("module", "client") ∷ ("line", "7") ∷ ("topic", "orders") ∷ ("retry", "true") ∷ []))
to_string-pairs_example = to_string-pairs formats md fields

abbrev shown : BridgeError → String
shown _ = "shut down"

-- An event, its future, its start, another event, which waits, the first call, and its reply.
abbrev turns : List (Event ℕ String String)
turns = emits md fields ∷ takes ∷ begins 0 ∷ emits md [] ∷ runs ∷ ends 0 (ok (ok tt)) ∷ []

second_waits :
    (forward_all formats shown true turns new_logger).queue ≡ (info, "module=client line=7") ∷ []
unfolding forward_all
second_waits = refl

forward_all-once_example :
    Perm
      (calls (forward_all formats shown true turns new_logger))
      (map call_of (emitted formats turns))
    × (requests (forward_all formats shown true turns new_logger) ≤ 16)
forward_all-once_example = forward_all-once formats shown turns
