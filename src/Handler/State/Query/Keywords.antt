-- ===== src/Handler/State/Query/Keywords.antt =====
-- The keyword hash, its slots, and the translation of one option.
use prosody_rb.Base.{
  str_eq, ℕ, suc, zero, ℤ, pos, negsuc, String, Bool, true, false, ◌&&◌, Option, none, some, Result,
  ok, err, List, [], ◌∷◌, ◌>>=◌, ok_or, traverse_option, ltb, if◌then◌else◌,
}
use prosody_rb.Ruby.{
  Value, nil, integer, range, Error, new, argument_error, type_error, lit, inspected,
}

-- Raw option values. `nil` values are absent.
pub record Keywords : Type 0 where
  pub from : Option Value
  pub after : Option Value
  pub to : Option Value
  pub before : Option Value
  pub within : Option Value
  pub prefix : Option Value
  pub limit : Option Value

abbrev pub no_keywords : Keywords
no_keywords = record {
  from = none;
  after = none;
  to = none;
  before = none;
  within = none;
  prefix = none;
  limit = none;
}

-- `(!value.is_nil()).then_some(value)`
abbrev pub present : Value → Option Value
present nil = none
present v = some v

abbrev pub unknown_keyword : String → Error
unknown_keyword other = new argument_error (lit "unknown keyword: :" ∷ lit other ∷ [])

-- The body of the loop: the slot of one keyword is written.
unfoldable pub set_slot : Bool → Keywords → String → Value → Result Error Keywords
set_slot prefix_allowed k name v =
    if str_eq name "from"
    then ok (record k { from = present v })
    else if str_eq name "after"
    then ok (record k { after = present v })
    else if str_eq name "to"
    then ok (record k { to = present v })
    else if str_eq name "before"
    then ok (record k { before = present v })
    else if str_eq name "range"
    then ok (record k { within = present v })
    else if str_eq name "prefix" && prefix_allowed
    then ok (record k { prefix = present v })
    else if str_eq name "limit"
    then ok (record k { limit = present v })
    else err (unknown_keyword name)

unfoldable pub collect_from : Bool → Keywords → List (String × Value) → Result Error Keywords
collect_from prefix_allowed k [] = ok k
collect_from prefix_allowed k ((name, v) ∷ options) =
    set_slot prefix_allowed k name v >>= λ k'. collect_from prefix_allowed k' options

unfoldable pub collect : Bool → List (String × Value) → Result Error Keywords
unfolding collect_from
collect prefix_allowed options = collect_from prefix_allowed no_keywords options

-- `std::ops::Bound`
pub data Bound (T : Type 0) : Type 0 where
  included excluded : T → Bound T
  unbounded : Bound T

pub record Bounds (T : Type 0) : Type 0 where
  pub start : Bound T
  pub end : Bound T
  pub within : Option (Bound T × Bound T)
  pub limit : Option ℕ

abbrev pub exclusive_edges : String → String → Error
exclusive_edges inclusive_name exclusive_name = new argument_error (
    lit inclusive_name
    ∷ lit ": and "
    ∷ lit exclusive_name
    ∷ lit ": are exclusive; pass one of them"
    ∷ [])

abbrev pub not_a_range : Value → Error
not_a_range v = new type_error (lit "range: expected a Range, got " ∷ inspected v ∷ [])

module _ {T : Type 0} (convert : String → Value → Result Error T) where
  unfoldable pub edge : String → Option Value → String → Option Value → Result Error (Bound T)
  edge inclusive_name (some _) exclusive_name (some _) =
      err (exclusive_edges inclusive_name exclusive_name)
  edge inclusive_name (some v) exclusive_name none =
      convert inclusive_name v >>= λ t. ok (included t)
  edge inclusive_name none exclusive_name (some v) =
      convert exclusive_name v >>= λ t. ok (excluded t)
  edge inclusive_name none exclusive_name none = ok unbounded

  unfoldable pub low_bound : Value → Result Error (Bound T)
  low_bound nil = ok unbounded
  low_bound v = convert "range" v >>= λ t. ok (included t)

  unfoldable pub high_bound : Value → Bool → Result Error (Bound T)
  high_bound nil excl = ok unbounded
  high_bound v true = convert "range" v >>= λ t. ok (excluded t)
  high_bound v false = convert "range" v >>= λ t. ok (included t)

  unfoldable pub range_bounds : Value → Result Error (Bound T × Bound T)
  unfolding low_bound high_bound
  range_bounds (range low high excl) = do
    low' ← low_bound low
    high' ← high_bound high excl
    ok (low', high')
  range_bounds v = err (not_a_range v)

abbrev pub usize_size : ℕ
usize_size = 18446744073709551616

-- `Integer::to_usize`
unfoldable pub to_usize : ℤ → Option ℕ
to_usize (pos n) = if ltb n usize_size then some n else none
to_usize (negsuc n) = none

-- `Integer::from_value`, then `to_usize`.
unfoldable pub usize_of : Value → Option ℕ
unfolding to_usize
usize_of (integer i) = to_usize i
usize_of v = none

abbrev pub not_a_position : String → Value → Error
not_a_position keyword v =
    new argument_error
      (lit keyword ∷ lit ": expected a non-negative Integer position, got " ∷ inspected v ∷ [])

unfoldable pub position : String → Value → Result Error ℕ
unfolding usize_of
position keyword v = ok_or (not_a_position keyword v) (usize_of v)

abbrev pub not_a_limit : Value → Error
not_a_limit v =
    new argument_error (lit "limit: expected a positive Integer, got " ∷ inspected v ∷ [])

-- `NonZeroUsize::new`
abbrev pub non_zero : ℕ → Option ℕ
non_zero zero = none
non_zero (suc n) = some (suc n)

unfoldable pub limit_of : Value → Result Error ℕ
unfolding usize_of
limit_of v = ok_or (not_a_limit v) (usize_of v) >>= λ n. ok_or (not_a_limit v) (non_zero n)

-- `Keywords::bounds`
unfoldable pub bounds :
    {T : Type 0} → (String → Value → Result Error T) → Keywords → Result Error (Bounds T)
unfolding edge range_bounds limit_of
bounds convert k = do
  start ← edge convert "from" k.from "after" k.after
  end ← edge convert "to" k.to "before" k.before
  within ← traverse_option (range_bounds convert) k.within
  limit ← traverse_option limit_of k.limit
  ok (record { start = start; end = end; within = within; limit = limit })
