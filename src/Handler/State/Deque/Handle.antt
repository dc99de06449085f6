-- ===== src/Handler/State/Deque/Handle.antt =====
-- The native handle that the Ruby library reads is the handle of a deque whose core is a list.
use prosody_rb.Base.{
  ℕ, ◌^◌, ◌<◌, ℤ, pos, String, ◌≡◌, ◌≢◌, Option, none, List, Result, ok, length, get_elem?,
}
use prosody_rb.Ruby.{Value, nil, integer, Error}
use prosody_rb.Ruby.Effects.{M, ◌>>=◌, pure, lift}
use prosody_rb.Ruby.Effects.Refines.{Ends, Refines, >>=-Refines}
use prosody_rb.Ruby.Vm.{Vm}
use prosody_rb.Handler.State.Handles.{run_state}
use prosody_rb.Handler.State.Handles.Laws.{does, Traces, run_state-Refines}
use prosody_rb.Handler.State.Deque.{DequeState, deque_len, deque_get, deque_peek_back}
use prosody_rb.Handler.State.Deque.Lists.{IsListDeque, last, looked, kept}
use prosody_rb.Handler.State.Deque.Library.{get, fetch}
use prosody_rb.Handler.State.Deque.Indexed.{at}
use prosody_rb.Handler.State.Deque.Reads.{
  IsIndexed, IsIndex, shown, given, fetched_item, get-at, fetch-at,
}

module _ {W Item : Type 0} (vm : Vm W) (core : DequeState W Item) (prepare : Value → M W Item)
    (restore : Option Item → M W Value) (usize_of : ℤ → Result Error ℕ) where
  -- Ruby's number becomes a usize.
  abbrev pub handle_get : ℤ → M W Value
  handle_get i = lift (usize_of i) >>= deque_get vm core prepare restore

  module _ (view : W → List Item) (show : Item → Value) {capacity : Option ℕ}
      {IsStorable : Item → Type 0} (laws : IsListDeque capacity IsStorable view core)
      (traces : Traces view vm)
      (restores : (item : Option Item) → Refines view (restore item) (pure (shown show item)))
      (warn : String → M W (Unit {0})) (fits : (n : ℕ) → n < 2 ^ 64 → usize_of (pos n) ≡ ok n) where
    deque_get-Refines :
        (n : ℕ)
        → n < 2 ^ 64
        → Refines view (handle_get (pos n)) (does (λ l. (shown show (get_elem? l n), l)))
    unfolding deque_get
    deque_get-Refines n small w = rw (fits n small) (
        >>=-Refines view (run_state vm (core.wait_get n)) (does (looked (λ l. get_elem? l n) kept))
          restore (λ item. pure (shown show item))
          (run_state-Refines view vm (core.wait_get n) (looked (λ l. get_elem? l n) kept) traces
            (laws.get_law n))
          restores w)

    pub handle-IsIndexed :
        IsIndexed view show
          (deque_len vm core prepare restore)
          handle_get
          (deque_peek_back vm core prepare restore)
          warn
    unfolding deque_len deque_peek_back
    handle-IsIndexed = record {
      len_law = run_state-Refines view vm core.wait_len (λ l. (length l, l)) traces laws.len_law;
      get_law = deque_get-Refines;
      back_law =
          >>=-Refines view (run_state vm core.wait_peek_back) (does (looked last kept)) restore
            (λ item. pure (shown show item))
            (run_state-Refines view vm core.wait_peek_back (looked last kept) traces
              laws.peek_back_law)
            restores;
    }

    -- Let the core's deque be a list of fewer than 2 ^ 64 items on which its operations succeed, and
    -- none of whose items shows as `nil`; let the index be a usize or negative. Then `get` and
    -- `fetch` of the Ruby library read the list's item at the index, counted from the back where the
    -- index is negative, -1 being the last item, and leave the list. Outside the list `get` gives
    -- `nil`, and `fetch`, here without a block, gives the default or raises `IndexError`.
    pub get-fetch-at :
        (i : ℤ) (default : Option Value) (w : W)
        → length (view w) < 2 ^ 64
        → IsIndex i
        → ((item : Item) → show item ≢ nil)
        → Ends view
            (get
              (deque_len vm core prepare restore)
              handle_get
              (deque_peek_back vm core prepare restore)
              warn
              (integer i)
              w)
            (ok (shown show (at (view w) i)), view w)
          × Ends view
              (fetch
                (deque_len vm core prepare restore)
                handle_get
                (deque_peek_back vm core prepare restore)
                warn
                (integer i)
                (given default)
                none
                w)
              (fetched_item show i default (at (view w) i), view w)
    get-fetch-at i default w small index real =
        let len = deque_len vm core prepare restore in
        let back = deque_peek_back vm core prepare restore in
        (
          get-at view show len handle_get back warn handle-IsIndexed i w small index,
          fetch-at view show len handle_get back warn handle-IsIndexed i default w small index real,
        )
