-- ===== src/Logging/Forward/Once.antt =====
-- Events reach Ruby's logger once, and few at a time.
use mathlib.Core.List.Perm
use prosody_rb.Base.Removal.{get-remove-perm, length-remove}
use mathlib.Core.List.{Perm, append_assoc, append-nil, map, map-append}
use prosody_rb.Base.{
  some, ◌+◌, ℕ, get_elem?, Option-cases, ◌≤◌, String, true, ltb, Bool-cases, ◌≡◌, refl, ap, sym,
  subst, ◌∙◌, inl, inr, List, [], ◌∷◌, ◌++◌, Result, ok, err, length, length-append, remove,
  if◌then◌else◌, arith,
}
use prosody_rb.Bridge.{BridgeError, send}
use prosody_rb.Logging.{Formats, new_visitor, visit_all, to_string, log_method, log_event, on_event}
use prosody_rb.Logging.Forward.{
  Line, Logger, report, take_first, run_first, Event, emits, takes, begins, runs, ends, begin_log,
  first_poll, take_event, run_command, end_log, forward, forward_all, new_logger,
}

module _ {F64 Failure Debugged : Type 0} (formats : Formats F64 Failure Debugged) where
  -- The lines of the tracing events, with their text.
  abbrev pub emitted : List (Event F64 Failure Debugged) → List Line
  emitted [] = []
  emitted (emits md fields ∷ events) =
      let rest = emitted events in
      if md.is_event
      then (md.level, to_string (visit_all formats fields (new_visitor formats md))) ∷ rest
      else rest
  emitted (takes ∷ events) = emitted events
  emitted (begins i ∷ events) = emitted events
  emitted (runs ∷ events) = emitted events
  emitted (ends i reply ∷ events) = emitted events

abbrev pub call_of : Line → String × String
call_of (level, text) = (log_method level, text)

-- The calls of Ruby's logger that were made, and those that are to come.
abbrev pub calls : Logger → List (String × String)
calls l = l.logged ++ map call_of (l.bridge.queue ++ (l.created ++ l.queue))

-- The log requests that are made and have not ended.
abbrev pub requests : Logger → ℕ
requests l = length l.created + length l.running

-- A report changes neither the calls nor what runs.
reported-calls :
    (reply : Result String (Result String (Unit {0}))) (line : Line) (l : Logger)
    → (calls (log_event (λ method. λ text. λ w. (reply, w)) report line l) ≡ calls l)
      × (requests (log_event (λ method. λ text. λ w. (reply, w)) report line l) ≡ requests l)
unfolding log_event
reported-calls (err e) (level, text) l = (refl, refl)
reported-calls (ok (err e)) (level, text) l = (refl, refl)
reported-calls (ok (ok u)) (level, text) l = (refl, refl)

module _ {F64 Failure Debugged : Type 0} (formats : Formats F64 Failure Debugged)
    (display : BridgeError → String) where
  take_first-calls :
      (q : List Line) (l : Logger)
      → l.queue ≡ q
      → (calls (take_first q l) ≡ calls l) × (requests l ≤ 16 → requests (take_first q l) ≤ 16)
  take_first-calls [] l e = (refl, λ h. h)
  take_first-calls (line ∷ rest) l e =
      elim (Bool-cases (ltb (length l.created + length l.running) 16)) [
        | inl room ↦
            rw (room, e)
              (
                ap (λ q. l.logged ++ map call_of (l.bridge.queue ++ q))
                    (append_assoc l.created (line ∷ []) rest),
                λ h. ground (arith, length-append l.created (line ∷ [])),
              )
        | inr full ↦ rw full (refl, λ h. h)
      ]

  polled-calls :
      (i : ℕ) (l : Logger) (line : Line)
      → get_elem? l.created i ≡ some line
      → Perm
          (calls (begin_log display true line (record l { created = remove i l.created })))
          (calls l)
  unfolding begin_log send
  polled-calls i l line e =
      let front = l.bridge.queue in
      let left = remove i l.created ++ l.queue in
      let moved : Perm (front ++ (l.created ++ l.queue)) (front ++ (line ∷ left)) =
        Perm.append_left front (Perm.append_right l.queue (get-remove-perm l.created i e)) in
      subst (λ c. Perm (l.logged ++ map call_of c) (calls l))
        (sym (append_assoc front (line ∷ []) left))
        (Perm.append_left l.logged (Perm.map call_of (Perm.symm moved)))

  first_poll-calls :
      (i : ℕ) (l : Logger)
      → Perm (calls (first_poll display true i l)) (calls l)
        × (requests l ≤ 16 → requests (first_poll display true i l) ≤ 16)
  unfolding first_poll begin_log send
  first_poll-calls i l = elim (Option-cases (get_elem? l.created i)) [
    | inl is_none ↦ rw (is_none, first_poll) (Perm.rfl, λ h. h)
    | inr (line, is_some) ↦
        rw (is_some, first_poll)
          (
            polled-calls i l line is_some,
            λ h.
                omega (
                  arith,
                  h,
                  length-remove l.created i is_some,
                  length-append l.running (line ∷ []),
                ),
          )
  ]

  run_first-calls :
      (q : List Line) (l : Logger)
      → l.bridge.queue ≡ q
      → (calls (run_first q l) ≡ calls l) × (requests (run_first q l) ≡ requests l)
  run_first-calls [] l e = (refl, refl)
  run_first-calls ((level, text) ∷ rest) l e = rw e (
    append_assoc l.logged (call_of (level, text) ∷ [])
        (map call_of (rest ++ (l.created ++ l.queue))),
    refl,
  )

  emitted-calls :
      (line : Line) (l : Logger)
      → calls (record l { queue = l.queue ++ (line ∷ []) }) ≡ calls l ++ (call_of line ∷ [])
  emitted-calls line l =
      let all = l.bridge.queue ++ (l.created ++ l.queue) in
      ap (λ q. l.logged ++ map call_of q)
        (ap (λ q. l.bridge.queue ++ q) (sym (append_assoc l.created l.queue (line ∷ [])))
          ∙ sym (append_assoc l.bridge.queue (l.created ++ l.queue) (line ∷ [])))
      ∙ ap (λ c. l.logged ++ c) (map-append call_of all (line ∷ []))
      ∙ sym (append_assoc l.logged (map call_of all) (call_of line ∷ []))

  end_log-calls :
      (i : ℕ) (reply : Result String (Result String (Unit {0}))) (l : Logger)
      → (calls (end_log i reply l) ≡ calls l)
        × (requests l ≤ 16 → requests (end_log i reply l) ≤ 16)
  unfolding end_log
  end_log-calls i reply l = elim (Option-cases (get_elem? l.running i)) [
    | inl is_none ↦ rw (is_none, end_log) (refl, λ h. h)
    | inr (line, is_some) ↦
        let (same, kept) = reported-calls reply line (record l { running = remove i l.running }) in
        rw (is_some, end_log) (same, λ h. omega (arith, kept, h, length-remove l.running i is_some))
  ]

  emitted-Perm :
      (line : Line) (l : Logger)
      → Perm (calls (record l { queue = l.queue ++ (line ∷ []) })) (calls l ++ (call_of line ∷ []))
  emitted-Perm line l =
      subst (Perm (calls (record l { queue = l.queue ++ (line ∷ []) }))) (emitted-calls line l)
        Perm.rfl

  same-Perm : {A : Type 0} {xs ys : List A} → xs ≡ ys → Perm xs (ys ++ [])
  same-Perm {xs} {ys} e = subst (Perm xs) (e ∙ sym (append-nil ys)) Perm.rfl

  forward-calls :
      (e : Event F64 Failure Debugged) (l : Logger)
      → Perm
          (calls (forward formats display true e l))
          (calls l ++ map call_of (emitted formats (e ∷ [])))
        × (requests l ≤ 16 → requests (forward formats display true e l) ≤ 16)
  unfolding forward on_event take_event run_command
  forward-calls (emits md fields) l = elim (Bool-cases md.is_event) [
    | inl is_so ↦ rw is_so (emitted-Perm _ l, λ h. h)
    | inr is_not ↦ rw is_not (same-Perm refl, λ h. h)
  ]
  forward-calls takes l = let (same, few) = take_first-calls l.queue l refl in (same-Perm same, few)
  forward-calls (begins i) l =
      let (moved, few) = first_poll-calls i l in
      (subst (Perm (calls (first_poll display true i l))) (sym (append-nil (calls l))) moved, few)
  forward-calls runs l =
      let (same, kept) = run_first-calls l.bridge.queue l refl in
      (same-Perm same, λ h. omega (arith, kept, h))
  forward-calls (ends i reply) l =
      let (same, few) = end_log-calls i reply l in (same-Perm same, few)

  emitted-cons :
      (e : Event F64 Failure Debugged) (events : List (Event F64 Failure Debugged))
      → emitted formats (e ∷ events) ≡ emitted formats (e ∷ []) ++ emitted formats events
  emitted-cons (emits md fields) events = elim (Bool-cases md.is_event) [
    | inl is_so ↦ rw is_so refl
    | inr is_not ↦ rw is_not refl
  ]
  emitted-cons takes events = refl
  emitted-cons (begins i) events = refl
  emitted-cons runs events = refl
  emitted-cons (ends i reply) events = refl

  forward_all-calls :
      (events : List (Event F64 Failure Debugged)) (l : Logger)
      → Perm
          (calls (forward_all formats display true events l))
          (calls l ++ map call_of (emitted formats events))
        × (requests l ≤ 16 → requests (forward_all formats display true events l) ≤ 16)
  unfolding forward_all
  forward_all-calls [] l = (same-Perm refl, λ h. h)
  forward_all-calls (e ∷ events) l =
      let (one, few) = forward-calls e l in
      let (more, fewer) = forward_all-calls events (forward formats display true e l) in
      let first = map call_of (emitted formats (e ∷ [])) in
      let rest = map call_of (emitted formats events) in
      (
        subst (Perm (calls (forward_all formats display true (e ∷ events) l)))
            (append_assoc (calls l) first rest
              ∙ ap (λ c. calls l ++ c)
                  (sym (map-append call_of (emitted formats (e ∷ [])) (emitted formats events))
                    ∙ ap (map call_of) (sym (emitted-cons e events))))
            (Perm.trans more (Perm.append_right rest one)),
        λ h. fewer (few h),
      )

  -- Let tracing events, the forwarding task, the first polls of its futures, the Ruby thread and the
  -- replies take turns in any order, from a new logger and while the bridge receives. Then the calls
  -- that Ruby's logger has had, with those for the commands on the bridge, for the futures that were
  -- not polled yet and for the events still in the channel, are one call for each tracing event, with
  -- its level's method and its text, in some order: none is lost or doubled. At most sixteen log
  -- requests are made and have not ended at any time.
  pub forward_all-once :
      (events : List (Event F64 Failure Debugged))
      → Perm
          (calls (forward_all formats display true events new_logger))
          (map call_of (emitted formats events))
        × (requests (forward_all formats display true events new_logger) ≤ 16)
  forward_all-once events =
      let (same, few) = forward_all-calls events new_logger in (same, few (omega arith))
