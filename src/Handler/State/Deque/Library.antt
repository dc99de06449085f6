-- ===== src/Handler/State/Deque/Library.antt =====
-- lib/prosody/state/deque.rb: the reads by index of a deque, over the native handle.
use prosody_rb.Base.{
  ℕ, zero, suc, ◌+◌, ◌-◌, ℤ, pos, negsuc, String, Option, none, some, List, [], ◌∷◌, err, ltb,
  length, if◌then◌else◌,
}
use prosody_rb.Ruby.{
  Value, nil, integer, new, transient_state_error, argument_error, index_error, lit, number, signed,
  inspected,
}
use prosody_rb.Ruby.Effects.{M, ◌>>=◌, ◌>>◌, pure, lift}

-- The native handle's methods, and `Kernel#warn`. Ruby's number becomes a usize on the way to `get`.
module _ {W : Type 0} (len : M W ℕ) (native_get : ℤ → M W Value) (peek_back : M W Value)
    (warn : String → M W (Unit {0})) where
  -- `at_negative`, for the index -(m + 1).
  unfoldable pub at_negative : ℕ → M W Value
  at_negative zero = peek_back
  at_negative (suc m) = do
    n ← len
    if ltb (suc m) n then native_get (pos (n - suc (suc m))) else pure nil

  unfoldable pub get : Value → M W Value
  unfolding at_negative
  get (integer (pos n)) = native_get (pos n)
  get (integer (negsuc m)) = at_negative m
  get index = lift (
      err (
        new transient_state_error
          (lit "get: index must be an Integer, got " ∷ inspected index ∷ [])))

  -- What `fetch` gives where there is no element.
  unfoldable pub absent : ℤ → List Value → Option (Value → M W Value) → M W Value
  absent i default (some block) = block (integer i)
  absent i [] none =
      lift (err (new index_error (lit "index " ∷ signed i ∷ lit " outside deque bounds" ∷ [])))
  absent i (value ∷ _) none = pure value

  unfoldable pub fetched : ℤ → List Value → Option (Value → M W Value) → Value → M W Value
  unfolding absent
  fetched i default block nil = absent i default block
  fetched i default block value = pure value

  abbrev warned : List Value → Option (Value → M W Value) → M W (Unit {0})
  warned (_ ∷ _) (some block) = warn "warning: block supersedes default value argument"
  warned _ _ = pure tt

  abbrev fetch_at : Value → List Value → Option (Value → M W Value) → M W Value
  fetch_at (integer i) default block = do
    warned default block
    value ← get (integer i)
    fetched i default block value
  fetch_at index default block = lift (
      err (
        new transient_state_error
          (lit "fetch: index must be an Integer, got " ∷ inspected index ∷ [])))

  unfoldable pub fetch : Value → List Value → Option (Value → M W Value) → M W Value
  unfolding get fetched
  fetch index (a ∷ b ∷ more) block = lift (
      err (
        new argument_error (
          lit "wrong number of arguments (given "
          ∷ number (length (a ∷ b ∷ more) + 1)
          ∷ lit ", expected 1..2)"
          ∷ [])))
  fetch index default block = fetch_at index default block
