-- ===== src/Handler/State/Deque/Sample.antt =====
-- A core for the tests whose deque is a list.
use prosody_rb.Base.{
  ℕ, Option, some, refl, none, List, [], ◌∷◌, ◌++◌, Result, ok, length, get_elem?, drop,
}
use prosody_rb.Ruby.Effects.{M, pure}
use prosody_rb.Ruby.Vm.Sample.{sample}
use prosody_rb.Ruby.Vm.{Vm, Carrier, extract_opentelemetry_context}
use prosody_rb.Handler.State.Handles.{ErasedStateError, applied}
use prosody_rb.Handler.State.Handles.Laws.{does, Traces, Does}
use prosody_rb.Handler.State.Deque.{DequeState}
use prosody_rb.Handler.State.Deque.Lists.{
  changed, looked, kept, last, init, is_nil, keep_back, keep_front, IsListDeque,
}

abbrev capacity : Option ℕ
capacity = some 100

module _ {Item : Type 0} where
  abbrev pub vm : Vm (List Item)
  vm = sample (λ w. 0)

  abbrev pub view : List Item → List Item
  view w = w

  -- It takes all items, and keeps a hundred.
  abbrev pub AnyItem : Item → Type 0
  AnyItem item = Unit

  -- A core operation on the list itself.
  abbrev reply :
      {A : Type 0}
      → (List Item → A × List Item)
      → Carrier
      → M (List Item) (Result ErasedStateError A)
  reply f context = does (λ w. (ok (f w).0, (f w).1))

  abbrev pub core : DequeState (List Item) Item
  core = record {
    wait_len = reply (λ l. (length l, l));
    wait_is_empty = reply (λ l. (is_nil l, l));
    wait_get = λ i. reply (looked (λ l. get_elem? l i) kept);
    wait_peek_front = reply (looked (λ l. get_elem? l 0) kept);
    wait_peek_back = reply (looked last kept);
    wait_push_back = λ item. reply (changed (λ l. keep_back capacity (l ++ (item ∷ []))));
    wait_push_front = λ item. reply (changed (λ l. keep_front capacity (item ∷ l)));
    wait_pop_front = reply (looked (λ l. get_elem? l 0) (drop 1));
    wait_pop_back = reply (looked last init);
    wait_clear = reply (changed (λ l. []));
    stream_values = λ query. record {
      wait_next_ready_chunk = λ n. λ context. pure (ok none);
      wait_close = pure tt;
    };
    wait_commit = λ context. pure (ok applied);
    wait_rollback = λ context. pure applied;
  }

  abbrev at_once : {A : Type 0} (f : List Item → A × List Item) → Does view (reply f) f
  at_once f = record { runs = λ context. λ w. ((f w).1, refl, refl) }

  abbrev pub core_laws : IsListDeque capacity AnyItem view core
  core_laws = record {
    len_law = at_once _;
    is_empty_law = at_once _;
    get_law = λ i. at_once _;
    peek_front_law = at_once _;
    peek_back_law = at_once _;
    push_back_law = λ item. λ h. at_once _;
    push_front_law = λ item. λ h. at_once _;
    pop_front_law = at_once _;
    pop_back_law = at_once _;
    clear_law = at_once _;
  }

  abbrev pub vm_Traces : Traces view vm
  unfolding extract_opentelemetry_context
  vm_Traces w = ([], w, refl, refl)
