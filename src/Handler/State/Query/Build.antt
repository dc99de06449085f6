-- ===== src/Handler/State/Query/Build.antt =====
-- `key_query`, `position_query` and `parse_direction`. The lookup of the class
-- `TransientStateError`, which the Ruby library defines, is taken to succeed.
use prosody_rb.Base.{
  str_eq, ℕ, String, true, false, Option, none, some, Result, ok, err, List, [], ◌∷◌, ◌++◌, ◌>>=◌,
  traverse_option, if◌then◌else◌,
}
use prosody_rb.Ruby.{Value, Error, new, transient_state_error, lit}
use prosody_rb.Handler.State.Query.Keywords.{
  collect, Bound, included, excluded, unbounded, Bounds, bounds, position,
}

pub data Direction : Type 0 where
  forward backward : Direction

-- A call of the builder of a core query.
pub data QueryCall (T : Type 0) : Type 0 where
  direction : Direction → QueryCall T
  from after to before : T → QueryCall T
  within : Bound T × Bound T → QueryCall T
  prefix : String → QueryCall T
  limit : ℕ → QueryCall T

abbrev pub Query : Type 0 → Type 0
Query T = List (QueryCall T)

abbrev pub bad_direction : String → Error
bad_direction other =
    new transient_state_error
      (lit "direction: expected :forward or :backward, got :" ∷ lit other ∷ [])

unfoldable pub parse_direction : String → Result Error Direction
parse_direction name =
    if str_eq name "forward"
    then ok forward
    else if str_eq name "backward"
    then ok backward
    else err (bad_direction name)

-- The `match` on an edge: an unbounded edge makes no call.
abbrev pub edge_calls : {T : Type 0} → (T → QueryCall T) → (T → QueryCall T) → Bound T → Query T
edge_calls inclusive exclusive (included t) = inclusive t ∷ []
edge_calls inclusive exclusive (excluded t) = exclusive t ∷ []
edge_calls inclusive exclusive unbounded = []

abbrev pub optional_call : {A T : Type 0} → (A → QueryCall T) → Option A → Query T
optional_call call none = []
optional_call call (some a) = call a ∷ []

abbrev pub start_calls : {T : Type 0} → Bounds T → Query T
start_calls b = edge_calls from after b.start

abbrev pub end_calls : {T : Type 0} → Bounds T → Query T
end_calls b = edge_calls to before b.end

abbrev pub key_calls : Direction → Bounds String → Option String → Query String
key_calls d b prefix' =
    direction d
    ∷ (start_calls b
        ++ (end_calls b
            ++ (optional_call within b.within
                ++ (optional_call prefix prefix' ++ optional_call limit b.limit))))

abbrev pub position_calls : Direction → Bounds ℕ → Query ℕ
position_calls d b =
    direction d
    ∷ (start_calls b
        ++ (end_calls b ++ (optional_call within b.within ++ optional_call limit b.limit)))

module _ (try_convert : Value → Result Error String) where
  unfoldable pub key_query : String → List (String × Value) → Result Error (Query String)
  unfolding parse_direction collect bounds
  key_query name options = do
    d ← parse_direction name
    keywords ← collect true options
    prefix' ← traverse_option try_convert keywords.prefix
    b ← bounds (λ _. try_convert) keywords
    ok (key_calls d b prefix')

unfoldable pub position_query : String → List (String × Value) → Result Error (Query ℕ)
unfolding parse_direction collect bounds position
position_query name options = do
  d ← parse_direction name
  keywords ← collect false options
  b ← bounds position keywords
  ok (position_calls d b)
