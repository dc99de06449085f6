-- ===== src/Handler/State/Deque/Refines.antt =====
-- The handle of a deque, over a core whose deque is a list, is a list.
use prosody_rb.Base.{ℕ, All, ◌++◌, [], ◌∷◌, ◌≡◌, Option, List, Result}
use prosody_rb.Ruby.{Value, Error}
use prosody_rb.Ruby.Effects.{M, pure, lift}
use prosody_rb.Ruby.Effects.Refines.{session, session-Refines_where, Refines}
use prosody_rb.Ruby.Vm.{Vm}
use prosody_rb.Handler.State.Handles.Laws.{
  Traces, answered-Refines, converted-Refines, stored-Refines,
}
use prosody_rb.Handler.State.Deque.{
  DequeState, deque_len, deque_is_empty, deque_get, deque_peek_front, deque_peek_back,
  deque_push_back, deque_push_front, deque_pop_front, deque_pop_back, deque_clear,
}
use prosody_rb.Handler.State.Deque.Lists.{
  Call, len, is_empty, get, peek_front, peek_back, push_back, push_front, pop_front, pop_back,
  clear, count, flag, value, nothing, list_call, IsListDeque, IsTaken, keep_back, keep_front,
  deque_call,
}

module _ {W Item : Type 0} (vm : Vm W) (core : DequeState W Item) (prepare : Value → M W Item)
    (restore : Option Item → M W Value) (view : W → List Item) (convert : Value → Result Error Item)
    (show : Option Item → Value) (capacity : Option ℕ) (IsStorable : Item → Type 0) where
  module _ (laws : IsListDeque capacity IsStorable view core) (traces : Traces view vm)
      (prepares : (v : Value) → Refines view (prepare v) (lift (convert v)))
      (restores : (item : Option Item) → Refines view (restore item) (pure (show item))) where
    deque_call-Refines :
        (c : Call)
        → IsTaken convert IsStorable c
        → Refines view (deque_call vm core prepare restore c) (list_call capacity convert show c)
    unfolding deque_call deque_len deque_is_empty deque_get deque_peek_front deque_peek_back
        deque_push_back deque_push_front deque_pop_front deque_pop_back deque_clear
    deque_call-Refines len h = answered-Refines view vm traces count laws.len_law
    deque_call-Refines is_empty h = answered-Refines view vm traces flag laws.is_empty_law
    deque_call-Refines (get i) h =
        converted-Refines view vm traces restore show value restores (laws.get_law i)
    deque_call-Refines peek_front h =
        converted-Refines view vm traces restore show value restores laws.peek_front_law
    deque_call-Refines peek_back h =
        converted-Refines view vm traces restore show value restores laws.peek_back_law
    deque_call-Refines (push_back v) h =
        stored-Refines view vm traces (prepare v) (convert v)
          (λ item. λ l. keep_back capacity (l ++ (item ∷ []))) nothing (prepares v)
          (λ item. λ e. laws.push_back_law item (h item e))
    deque_call-Refines (push_front v) h =
        stored-Refines view vm traces (prepare v) (convert v)
          (λ item. λ l. keep_front capacity (item ∷ l)) nothing (prepares v)
          (λ item. λ e. laws.push_front_law item (h item e))
    deque_call-Refines pop_front h =
        converted-Refines view vm traces restore show value restores laws.pop_front_law
    deque_call-Refines pop_back h =
        converted-Refines view vm traces restore show value restores laws.pop_back_law
    deque_call-Refines clear h = answered-Refines view vm traces (λ _. nothing) laws.clear_law

    -- Let the core's deque be a list, on which each of its operations succeeds, a push if it is of an
    -- item that the core takes; let the tracing
    -- context be extracted, and the conversions compute `convert`, which may fail, and `show`, all
    -- without a change of the list. Then Ruby's calls of a deque handle, in any number and order,
    -- return or raise what the same calls do on that list, if each value that they push and that
    -- converts is one that the core takes, as JSON's null is not: pushes store the converted value at
    -- their end, and drop what exceeds the capacity at the other, or raise and store nothing; pops
    -- and peeks show the item at their end, or an absent one. The list that is left is the same too.
    pub deque_call-Refines-lists :
        (calls : List Call) (w : W)
        → All (IsTaken convert IsStorable) calls
        → let r = session (deque_call vm core prepare restore) calls w in
          let s = session (list_call capacity convert show) calls (view w) in
          (r.0 ≡ s.0) × (view r.1 ≡ s.1)
    deque_call-Refines-lists =
        session-Refines_where view (deque_call vm core prepare restore)
          (list_call capacity convert show) (IsTaken convert IsStorable) deque_call-Refines
