-- ===== src/Handler/State/Kinds/Messages.antt =====
-- Collections of messages store messages and nothing else.
use prosody_rb.Base.{
  ℕ, All, String, ◌≡◌, refl, ap, ◌∙◌, inl, inr, Option, none, some, Option-cases, List, [], ◌∷◌,
  Result, ok, err,
}
use prosody_rb.Ruby.{Value, nil, Error, new, transient_state_error, lit}
use prosody_rb.Ruby.Effects.{pure, lift}
use prosody_rb.Ruby.Effects.Refines.{Refines, session}
use prosody_rb.Ruby.Vm.{Vm}
use prosody_rb.Handler.State.Handles.{message_write_item, message_or_nil, ruby_error}
use prosody_rb.Handler.State.Handles.Laws.{Traces}
use prosody_rb.Handler.State.Deque.{DequeState}
use prosody_rb.Handler.State.Deque.Lists.{
  Call, Reply, push_back, push_front, pop_front, pop_back, value, nothing, list_call, IsListDeque,
  IsTaken, deque_call,
}
use prosody_rb.Handler.State.Deque.Refines.{deque_call-Refines-lists}
use prosody_rb.Handler.State.Kinds.{message_deque}
use prosody_rb.Handler.State.Deque.Ends.{HasRoom, back_list, front_list, refused_list}

module _ {W Wrapped S : Type 0} (vm : Vm W) (try_convert : Value → Option Wrapped)
    (wrap : Wrapped → Value) (view : W → S) where
  -- Ruby finds the class of the error, and the viewed state stays.
  abbrev pub FindsClass : Type 0
  FindsClass =
      (w : W)
      → (class : Value) × (w' : W) × (vm.const_get vm.root_module "TransientStateError" w
          ≡ (ok class, w'))
        × (view w' ≡ view w)

  -- What an argument converts to.
  abbrev pub message_result : String → Option Wrapped → Result Error Wrapped
  message_result advice (some message) = ok message
  message_result advice none =
      err (new transient_state_error (lit "expected a Prosody::Message" ∷ lit advice ∷ []))

  abbrev pub message_of : String → Value → Result Error Wrapped
  message_of advice v = message_result advice (try_convert v)

  pub message_write_item-Refines :
      (advice : String) (v : Value)
      → FindsClass
      → Refines view (message_write_item vm try_convert advice v) (lift (message_of advice v))
  unfolding message_write_item ruby_error
  message_write_item-Refines advice v finds w = elim (Option-cases (try_convert v)) [
    | inl is_none ↦
        let (class, w', found, same) = finds w in
        rw (is_none, message_write_item, found) (w', refl, same)
    | inr (message, is_some) ↦ rw (is_some, message_write_item) (w, refl, refl)
  ]

  abbrev pub shown_message : Option Wrapped → Value
  shown_message none = nil
  shown_message (some message) = wrap message

  pub message_or_nil-Refines :
      (item : Option Wrapped) → Refines view (message_or_nil wrap item) (pure (shown_message item))
  unfolding message_or_nil
  message_or_nil-Refines none w = (w, refl, refl)
  message_or_nil-Refines (some message) w = (w, refl, refl)

module _ {W Wrapped : Type 0} (vm : Vm W) (core : DequeState W Wrapped)
    (try_convert : Value → Option Wrapped) (wrap : Wrapped → Value) (view : W → List Wrapped) where
  -- A row of calls of the handle of a message deque.
  abbrev pub row : List Call → W → List (Result Error Reply) × W
  row calls =
      session
        (deque_call vm core (message_deque vm try_convert wrap).prepare
          (message_deque vm try_convert wrap).restore)
        calls

  -- The replies of a row, which leaves the deque as it was.
  abbrev pub Leaves : List Call → List (Result Error Reply) → W → Type 0
  Leaves calls replies w = ((row calls w).0 ≡ replies) × (view (row calls w).1 ≡ view w)

  abbrev pub returned : Wrapped → List (Result Error Reply)
  returned message = ok nothing ∷ ok (value (wrap message)) ∷ []

  abbrev pub refused : List (Result Error Reply)
  refused =
      err (
        new transient_state_error
          (lit "expected a Prosody::Message" ∷ lit " to push into a message deque" ∷ []))
      ∷ []

  module _ (capacity : Option ℕ) (laws : IsListDeque capacity (λ _. Unit) view core)
      (traces : Traces view vm) (finds : FindsClass vm try_convert wrap view) where
    row-lists :
        (calls : List Call) (w : W)
        → All
            (IsTaken
              (message_of vm try_convert wrap view " to push into a message deque")
              (λ _. Unit))
            calls
        → let s =
            session
              (list_call capacity
                (message_of vm try_convert wrap view " to push into a message deque")
                (shown_message vm try_convert wrap view))
              calls
              (view w) in
          ((row calls w).0 ≡ s.0) × (view (row calls w).1 ≡ s.1)
    unfolding message_deque
    row-lists calls w taken =
        deque_call-Refines-lists vm core _ _ view _ _ capacity (λ _. Unit) laws traces
          (λ v. message_write_item-Refines vm try_convert wrap view _ v finds)
          (message_or_nil-Refines vm try_convert wrap view) calls w taken

    row-Leaves :
        (calls : List Call) (replies : List (Result Error Reply)) (w : W)
        → session
            (list_call capacity
              (message_of vm try_convert wrap view " to push into a message deque")
              (shown_message vm try_convert wrap view))
            calls
            (view w)
          ≡ (replies, view w)
        → All
            (IsTaken
              (message_of vm try_convert wrap view " to push into a message deque")
              (λ _. Unit))
            calls
        → Leaves calls replies w
    row-Leaves calls replies w e taken =
        let (answers, left) = row-lists calls w taken in
        (answers ∙ ap (λ s. s.0) e, left ∙ ap (λ s. s.1) e)

    -- Let the core's deque be a list on which its operations succeed, pushes within its capacity, if it
    -- has one; let the tracing context be extracted and the class of the error found, both without a
    -- change of it; and let the deque hold fewer messages than its capacity, if it has one. A Ruby
    -- message that is pushed at an end of a message deque and then popped there comes back, and the deque is as
    -- before. A value that is no message is refused at both ends with the transient state error that
    -- says so, and nothing is stored.
    pub message_deque-returned :
        (v other : Value) (message : Wrapped) (w : W)
        → try_convert v ≡ some message
        → try_convert other ≡ none
        → HasRoom capacity (view w)
        → Leaves (push_back v ∷ pop_back ∷ []) (returned message) w
          × Leaves (push_front v ∷ pop_front ∷ []) (returned message) w
          × Leaves (push_back other ∷ []) refused w
          × Leaves (push_front other ∷ []) refused w
    message_deque-returned v other message w is_message is_other room =
        let advice : String = " to push into a message deque" in
        let good = ap (message_result vm try_convert wrap view advice) is_message in
        let bad = ap (message_result vm try_convert wrap view advice) is_other in
        let convert = message_of vm try_convert wrap view advice in
        let show = shown_message vm try_convert wrap view in
        let no = refused_list capacity convert show other _ bad (view w) in
        (
          row-Leaves (push_back v ∷ pop_back ∷ []) (returned message) w
              (back_list capacity convert show v message good (view w) room)
              (λ i. λ e. tt, (tt, tt)),
          row-Leaves (push_front v ∷ pop_front ∷ []) (returned message) w
              (front_list capacity convert show v message good (view w) room)
              (λ i. λ e. tt, (tt, tt)),
          row-Leaves (push_back other ∷ []) refused w no.0 (λ i. λ e. tt, tt),
          row-Leaves (push_front other ∷ []) refused w no.1 (λ i. λ e. tt, tt),
        )
