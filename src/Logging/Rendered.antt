-- ===== src/Logging/Rendered.antt =====
-- What the text of an event says.
use text.Mathlib.TextLemmas.{append_assoc as text_assoc, append-eq-nil_iff}
use mathlib.Core.List.{append_assoc, append-nil}
use prosody_rb.Base.{
  str_eq, eq_iff, Bool-cases, String, ◌<>◌, true, ◌≡◌, ◌≢◌, refl, ap, sym, subst, ◌∙◌, inl, inr,
  Option, none, some, List, [], ◌∷◌, ◌++◌, if◌then◌else◌,
}
use prosody_rb.Logging.{
  Field, record_f64, record_i64, record_i128, record_u64, record_u128, record_bool, record_str,
  record_error, record_debug, Formats, Metadata, Visitor, push_kv, push_given, line_text,
  new_visitor, visit, visit_all, to_string,
}

abbrev pub pair_text : String × String → String
pair_text (key, value) = key <> "=" <> value

-- Pairs as text, with spaces between.
abbrev pub joined : List (String × String) → String
joined [] = ""
joined (p ∷ []) = pair_text p
joined (p ∷ q ∷ l) = pair_text p <> " " <> joined (q ∷ l)

pair_text-ne-nil : (p : String × String) → pair_text p ≢ ""
pair_text-ne-nil (key, value) e =
    let rest = (append-eq-nil_iff {p = key} {q = "=" <> value}).0 e in
    let same : str_eq "=" "" ≡ true =
      (eq_iff "=" "").1 ((append-eq-nil_iff {p = "="} {q = value}).0 rest.1).0 in
    cc

joined-ne-nil : (p : String × String) (l : List (String × String)) → joined (p ∷ l) ≢ ""
joined-ne-nil p [] e = pair_text-ne-nil p e
joined-ne-nil p (q ∷ l) e =
    pair_text-ne-nil p ((append-eq-nil_iff {p = pair_text p} {q = " " <> joined (q ∷ l)}).0 e).0

joined-snoc :
    (p : String × String) (l : List (String × String)) (q : String × String)
    → joined ((p ∷ l) ++ (q ∷ [])) ≡ joined (p ∷ l) <> " " <> pair_text q
joined-snoc p [] q = refl
joined-snoc p (r ∷ l) q =
    ap (λ s. pair_text p <> " " <> s) (joined-snoc r l q)
    ∙ ap (λ s. pair_text p <> s) (sym (text_assoc " " (joined (r ∷ l)) (" " <> pair_text q)))
    ∙ sym (text_assoc (pair_text p) (" " <> joined (r ∷ l)) (" " <> pair_text q))

push_kv-joined :
    (l : List (String × String)) (key value : String) (v : Visitor)
    → v.metadata ≡ joined l
    → (push_kv key value v).metadata ≡ joined (l ++ ((key, value) ∷ []))
unfolding push_kv
push_kv-joined [] key value v e =
    let start : str_eq v.metadata "" ≡ true = (eq_iff v.metadata "").1 e in rw (start) refl
push_kv-joined (p ∷ l) key value v e = elim (Bool-cases (str_eq v.metadata "")) [
  | inl is_so ↦ absurd (joined-ne-nil p l (sym e ∙ (eq_iff v.metadata "").0 is_so))
  | inr is_not ↦
      rw (is_not) (ap (λ s. s <> " " <> key <> "=" <> value) e ∙ sym (joined-snoc p l (key, value)))
]

push_kv-message :
    (key value : String) (v : Visitor) → (push_kv key value v).maybe_message ≡ v.maybe_message
unfolding push_kv
push_kv-message key value v = elim (Bool-cases (str_eq v.metadata "")) [
  | inl is_so ↦ rw (is_so) refl
  | inr is_not ↦ rw (is_not) refl
]

-- What a visitor has collected.
abbrev pub Has : Visitor → List (String × String) → Option String → Type 0
Has v l message = (v.metadata ≡ joined l) × (v.maybe_message ≡ message)

push_kv-Has :
    (l : List (String × String)) (message : Option String) (key value : String) (v : Visitor)
    → Has v l message
    → Has (push_kv key value v) (l ++ ((key, value) ∷ [])) message
push_kv-Has l message key value v (e, m) =
    (push_kv-joined l key value v e, push_kv-message key value v ∙ m)

abbrev pub given : String → Option String → List (String × String)
given key none = []
given key (some value) = (key, value) ∷ []

push_given-Has :
    (l : List (String × String)) (message value : Option String) (key : String) (v : Visitor)
    → Has v l message
    → Has (push_given key value v) (l ++ given key value) message
push_given-Has l message none key v h = rw append-nil h
push_given-Has l message (some value) key v h = push_kv-Has l message key value v h

abbrev pub line_of : Option String → String → String
line_of none text = text
line_of (some message) text = message <> " " <> text

module _ {F64 Failure Debugged : Type 0} (formats : Formats F64 Failure Debugged) where
  -- The pair of a field, if it is not the message, and the message after it.
  abbrev pub pairs_of : Field F64 Failure Debugged → List (String × String)
  pairs_of (record_f64 name value) = (name, formats.f64 value) ∷ []
  pairs_of (record_i64 name value) = (name, formats.signed value) ∷ []
  pairs_of (record_i128 name value) = (name, formats.signed value) ∷ []
  pairs_of (record_u64 name value) = (name, formats.unsigned value) ∷ []
  pairs_of (record_u128 name value) = (name, formats.unsigned value) ∷ []
  pairs_of (record_bool name value) = (name, formats.boolean value) ∷ []
  pairs_of (record_str name value) = (name, value) ∷ []
  pairs_of (record_error name value) = (name, formats.failure value) ∷ []
  pairs_of (record_debug name value) =
      if str_eq name "message" then [] else (name, formats.debugged value) ∷ []

  abbrev pub message_after : Field F64 Failure Debugged → Option String → Option String
  message_after (record_debug name value) message =
      if str_eq name "message" then some (formats.debugged value) else message
  message_after _ message = message

  visit-Has :
      (f : Field F64 Failure Debugged) (l : List (String × String)) (message : Option String)
      (v : Visitor)
      → Has v l message
      → Has (visit formats f v) (l ++ pairs_of f) (message_after f message)
  unfolding visit
  visit-Has (record_f64 name value) l message v h = push_kv-Has l message _ _ v h
  visit-Has (record_i64 name value) l message v h = push_kv-Has l message _ _ v h
  visit-Has (record_i128 name value) l message v h = push_kv-Has l message _ _ v h
  visit-Has (record_u64 name value) l message v h = push_kv-Has l message _ _ v h
  visit-Has (record_u128 name value) l message v h = push_kv-Has l message _ _ v h
  visit-Has (record_bool name value) l message v h = push_kv-Has l message _ _ v h
  visit-Has (record_str name value) l message v h = push_kv-Has l message _ _ v h
  visit-Has (record_error name value) l message v h = push_kv-Has l message _ _ v h
  visit-Has (record_debug name value) l message v (e, m) =
      elim (Bool-cases (str_eq name "message")) [
        | inl is_so ↦ rw (is_so, append-nil) (e, refl)
        | inr is_not ↦ rw (is_not) (push_kv-Has l message _ _ v (e, m))
      ]

  abbrev pub all_pairs : List (Field F64 Failure Debugged) → List (String × String)
  all_pairs [] = []
  all_pairs (f ∷ fields) = pairs_of f ++ all_pairs fields

  -- The last message counts.
  abbrev pub last_message : List (Field F64 Failure Debugged) → Option String → Option String
  last_message [] message = message
  last_message (f ∷ fields) message = last_message fields (message_after f message)

  visit_all-Has :
      (fields : List (Field F64 Failure Debugged)) (l : List (String × String))
      (message : Option String) (v : Visitor)
      → Has v l message
      → Has (visit_all formats fields v) (l ++ all_pairs fields) (last_message fields message)
  visit_all-Has [] l message v h = rw append-nil h
  visit_all-Has (f ∷ fields) l message v h =
      subst
        (λ k.
          Has (visit_all formats fields (visit formats f v)) k
            (last_message fields (message_after f message)))
        (append_assoc l (pairs_of f) (all_pairs fields))
        (visit_all-Has fields (l ++ pairs_of f) (message_after f message) (visit formats f v)
          (visit-Has f l message v h))

  abbrev pub pairs : Metadata → List (Field F64 Failure Debugged) → List (String × String)
  pairs md fields =
      given "module" md.module_path
      ++ (given "line" (line_text formats md.line) ++ all_pairs fields)

  new_visitor-Has :
      (md : Metadata)
      → Has
          (new_visitor formats md)
          (given "module" md.module_path ++ given "line" (line_text formats md.line))
          none
  unfolding new_visitor
  new_visitor-Has md =
      push_given-Has _ none (line_text formats md.line) "line" _
        (push_given-Has [] none md.module_path "module" _ (refl, refl))

  ends :
      (v : Visitor) (l : List (String × String)) (message : Option String)
      → Has v l message
      → to_string v ≡ line_of message (joined l)
  unfolding to_string
  ends v l none (text, message) = rw (message) text
  ends v l (some m) (text, message) = rw (message) (ap (λ s. m <> " " <> s) text)

  -- The text of an event is its last message and a space, if it has a message; then the module, the
  -- line and every other field, each once and in the order of the event, as `key=value` with one
  -- space between.
  pub to_string-pairs :
      (md : Metadata) (fields : List (Field F64 Failure Debugged))
      → to_string (visit_all formats fields (new_visitor formats md))
        ≡ line_of (last_message fields none) (joined (pairs md fields))
  unfolding to_string
  to_string-pairs md fields =
      let (text, message) =
        visit_all-Has fields _ none (new_visitor formats md) (new_visitor-Has md) in
      let start = given "module" md.module_path in
      let more = given "line" (line_text formats md.line) in
      let whole = append_assoc start more (all_pairs fields) in
      ends (visit_all formats fields (new_visitor formats md)) _ _ (text ∙ ap joined whole, message)
