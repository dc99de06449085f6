-- ===== src/Handler/State/Deque/Lists.antt =====
-- The calls of the handle of a deque from Ruby, and what they are to do where the deque is a list.
use prosody_rb.Base.{
  ℕ, Bool, true, false, Option, none, some, List, [], ◌∷◌, ◌++◌, Result, length, get_elem?, drop,
  take, ◌-◌, ◌≡◌, ok,
}
use prosody_rb.Ruby.{Value, Error}
use prosody_rb.Ruby.Effects.{M, ◌>>=◌, pure, lift}
use prosody_rb.Ruby.Vm.{Vm}
use prosody_rb.Handler.State.Handles.Laws.{does, Does}
use prosody_rb.Handler.State.Deque.{
  DequeState, deque_len, deque_is_empty, deque_get, deque_peek_front, deque_peek_back,
  deque_push_back, deque_push_front, deque_pop_front, deque_pop_back, deque_clear,
}

-- A call of a handle from Ruby, and what it returns.
pub data Call : Type 0 where
  len is_empty peek_front peek_back pop_front pop_back clear : Call
  get : ℕ → Call
  push_back push_front : Value → Call

pub data Reply : Type 0 where
  count : ℕ → Reply
  flag : Bool → Reply
  value : Value → Reply
  nothing : Reply

-- The ends of a list.
module _ {A : Type 0} where
  abbrev pub last : List A → Option A
  last [] = none
  last (a ∷ []) = some a
  last (a ∷ b ∷ l) = last (b ∷ l)

  abbrev pub init : List A → List A
  init [] = []
  init (a ∷ []) = []
  init (a ∷ b ∷ l) = a ∷ init (b ∷ l)

  -- What a deque of at most `capacity` slots keeps after a push at its back, and at its front: the
  -- items at the other end go.
  abbrev pub keep_back : Option ℕ → List A → List A
  keep_back none l = l
  keep_back (some capacity) l = drop (length l - capacity) l

  abbrev pub keep_front : Option ℕ → List A → List A
  keep_front none l = l
  keep_front (some capacity) l = take capacity l

  abbrev pub is_nil : List A → Bool
  is_nil [] = true
  is_nil (a ∷ l) = false

  -- What each call does to a list: its result, and the list after it.
  abbrev pub looked : (List A → Option A) → (List A → List A) → List A → Option A × List A
  looked item after l = (item l, after l)

  abbrev pub changed : (List A → List A) → List A → Unit {0} × List A
  changed after l = (tt, after l)

  abbrev pub kept : List A → List A
  kept l = l

-- The calls, on a list of items: `convert` and `show` are what the conversions compute.
module _ {Item : Type 0} (capacity : Option ℕ) (convert : Value → Result Error Item)
    (show : Option Item → Value) where
  abbrev pub shown : (List Item → Option Item × List Item) → M (List Item) Reply
  shown f = does f >>= λ item. pure (value (show item))

  abbrev pub stored : (Item → List Item → List Item) → Value → M (List Item) Reply
  stored f v = (lift (convert v) >>= λ item. does (changed (f item))) >>= λ _. pure nothing

  abbrev pub list_call : Call → M (List Item) Reply
  list_call len = does (λ l. (length l, l)) >>= λ n. pure (count n)
  list_call is_empty = does (λ l. (is_nil l, l)) >>= λ b. pure (flag b)
  list_call (get i) = shown (looked (λ l. get_elem? l i) kept)
  list_call peek_front = shown (looked (λ l. get_elem? l 0) kept)
  list_call peek_back = shown (looked last kept)
  list_call (push_back v) = stored (λ item. λ l. keep_back capacity (l ++ (item ∷ []))) v
  list_call (push_front v) = stored (λ item. λ l. keep_front capacity (item ∷ l)) v
  list_call pop_front = shown (looked (λ l. get_elem? l 0) (drop 1))
  list_call pop_back = shown (looked last init)
  list_call clear = does (changed (λ l. [])) >>= λ _. pure nothing

-- The laws of a core whose deque is the list `view w`, of at most `capacity` items, or of any number.
-- The core refuses to store some items, JSON's null for one; the laws are about those that it takes.
pub record IsListDeque {W Item : Type 0} (capacity : Option ℕ) (IsStorable : Item → Type 0)
    (view : W → List Item) (core : DequeState W Item) : Type 0 where
  pub len_law : Does view core.wait_len (λ l. (length l, l))
  pub is_empty_law : Does view core.wait_is_empty (λ l. (is_nil l, l))
  pub get_law : (i : ℕ) → Does view (core.wait_get i) (looked (λ l. get_elem? l i) kept)
  pub peek_front_law : Does view core.wait_peek_front (looked (λ l. get_elem? l 0) kept)
  pub peek_back_law : Does view core.wait_peek_back (looked last kept)
  pub push_back_law :
      (item : Item)
      → IsStorable item
      → Does view (core.wait_push_back item) (changed (λ l. keep_back capacity (l ++ (item ∷ []))))
  pub push_front_law :
      (item : Item)
      → IsStorable item
      → Does view (core.wait_push_front item) (changed (λ l. keep_front capacity (item ∷ l)))
  pub pop_front_law : Does view core.wait_pop_front (looked (λ l. get_elem? l 0) (drop 1))
  pub pop_back_law : Does view core.wait_pop_back (looked last init)
  pub clear_law : Does view core.wait_clear (changed (λ l. []))

-- A call that stores nothing, or a value that is refused by its conversion or taken by the core.
abbrev pub IsTaken : {Item : Type 0} → (Value → Result Error Item) → (Item → Type 0) → Call → Type 0
IsTaken {Item} convert IsStorable (push_back v) =
    (item : Item) → convert v ≡ ok item → IsStorable item
IsTaken {Item} convert IsStorable (push_front v) =
    (item : Item) → convert v ≡ ok item → IsStorable item
IsTaken convert IsStorable _ = Unit

-- The calls of one handle.
module _ {W Item : Type 0} (vm : Vm W) (core : DequeState W Item) (prepare : Value → M W Item)
    (restore : Option Item → M W Value) where
  -- The method that Ruby calls.
  unfoldable pub deque_call : Call → M W Reply
  unfolding deque_len deque_is_empty deque_get deque_peek_front deque_peek_back deque_push_back
      deque_push_front deque_pop_front deque_pop_back deque_clear
  deque_call len = deque_len vm core prepare restore >>= λ n. pure (count n)
  deque_call is_empty = deque_is_empty vm core prepare restore >>= λ b. pure (flag b)
  deque_call (get i) = deque_get vm core prepare restore i >>= λ v. pure (value v)
  deque_call peek_front = deque_peek_front vm core prepare restore >>= λ v. pure (value v)
  deque_call peek_back = deque_peek_back vm core prepare restore >>= λ v. pure (value v)
  deque_call (push_back v) = deque_push_back vm core prepare restore v >>= λ _. pure nothing
  deque_call (push_front v) = deque_push_front vm core prepare restore v >>= λ _. pure nothing
  deque_call pop_front = deque_pop_front vm core prepare restore >>= λ v. pure (value v)
  deque_call pop_back = deque_pop_back vm core prepare restore >>= λ v. pure (value v)
  deque_call clear = deque_clear vm core prepare restore >>= λ _. pure nothing
