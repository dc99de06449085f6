-- ===== src/Handler/State/Query/Calls.antt =====
-- The calls that make up a query that was built.
use prosody_rb.Base.{
  ℕ, ◌<◌, ◌≡◌, refl, String, false, Option, none, some, Result, ok, List, ◌⊎◌, arith,
  traverse_option, All, All-append, >>=-eq-ok, subst, ok-injective, inl, inr,
}
use prosody_rb.Ruby.{Value, Error}
use prosody_rb.Handler.State.Query.Keywords.{
  Keywords, Bound, included, excluded, unbounded, Bounds, range_bounds, position, usize_size,
  collect, bounds, edge, limit_of,
}
use prosody_rb.Handler.State.Query.Build.{
  QueryCall, direction, from, after, to, before, within, prefix, limit, Query, position_query,
  parse_direction, edge_calls, optional_call, start_calls, end_calls, position_calls, Direction,
}

abbrev IsUsize : Bound ℕ → Type 0
IsUsize (included n) = n < usize_size
IsUsize (excluded n) = n < usize_size
IsUsize unbounded = Unit

abbrev IsUsizePair : Bound ℕ × Bound ℕ → Type 0
IsUsizePair (low, high) = IsUsize low × IsUsize high

abbrev IsLimit : ℕ → Type 0
IsLimit n = (0 < n) × (n < usize_size)

abbrev OnSome : {A : Type 0} → (A → Type 0) → Option A → Type 0
OnSome P none = Unit
OnSome P (some a) = P a

-- What a call of the core's query may carry: positions that fit a usize, positive limits, and no
-- key prefix.
abbrev pub IsPositionCall : QueryCall ℕ → Type 0
IsPositionCall (direction d) = Unit
IsPositionCall (from n) = n < usize_size
IsPositionCall (after n) = n < usize_size
IsPositionCall (to n) = n < usize_size
IsPositionCall (before n) = n < usize_size
IsPositionCall (within r) = IsUsizePair r
IsPositionCall (prefix s) = ⊥
IsPositionCall (limit n) = IsLimit n

record IsUsizeBounds (b : Bounds ℕ) : Type 0 where
  start : IsUsize b.start
  end : IsUsize b.end
  within : OnSome IsUsizePair b.within
  limit : OnSome IsLimit b.limit

edge-IsUsize :
    (i : String) (a : Option Value) (e : String) (b : Option Value) {r : Bound ℕ}
    → edge position i a e b ≡ ok r
    → IsUsize r
unfolding edge position
edge-IsUsize i (some v) e (some w) h = ground arith
edge-IsUsize i (some v) e none h = ground arith
edge-IsUsize i none e (some w) h = ground arith
edge-IsUsize i none e none h = ground arith

range_bounds-IsUsize :
    (v : Value) {r : Bound ℕ × Bound ℕ} → range_bounds position v ≡ ok r → IsUsizePair r
unfolding range_bounds position
range_bounds-IsUsize v h = ground arith

limit_of-IsLimit : (v : Value) {n : ℕ} → limit_of v ≡ ok n → IsLimit n
unfolding limit_of
limit_of-IsLimit v h = ground arith

range_bounds-OnSome :
    (o : Option Value) {r : Option (Bound ℕ × Bound ℕ)}
    → traverse_option (range_bounds position) o ≡ ok r
    → OnSome IsUsizePair r
range_bounds-OnSome none h = ground arith
range_bounds-OnSome (some v) h =
    let (b, e, g) = >>=-eq-ok (range_bounds position v) _ h in
    subst (OnSome IsUsizePair) (ok-injective _ _ g) (range_bounds-IsUsize v e)

limit_of-OnSome :
    (o : Option Value) {r : Option ℕ} → traverse_option limit_of o ≡ ok r → OnSome IsLimit r
limit_of-OnSome none h = ground arith
limit_of-OnSome (some v) h =
    let (n, e, g) = >>=-eq-ok (limit_of v) _ h in
    subst (OnSome IsLimit) (ok-injective _ _ g) (limit_of-IsLimit v e)

bounds-IsUsizeBounds : (k : Keywords) {b : Bounds ℕ} → bounds position k ≡ ok b → IsUsizeBounds b
unfolding bounds
bounds-IsUsizeBounds k h =
    let (start, es, h1) = >>=-eq-ok (edge position "from" k.from "after" k.after) _ h in
    let (end, ee, h2) = >>=-eq-ok (edge position "to" k.to "before" k.before) _ h1 in
    let (w, ew, h3) = >>=-eq-ok (traverse_option (range_bounds position) k.within) _ h2 in
    let (l, el, h4) = >>=-eq-ok (traverse_option limit_of k.limit) _ h3 in
    ground (
      arith,
      h4,
      edge-IsUsize "from" k.from "after" k.after es,
      edge-IsUsize "to" k.to "before" k.before ee,
      range_bounds-OnSome k.within ew,
      limit_of-OnSome k.limit el,
    )

start-All : (b : Bound ℕ) → IsUsize b → All IsPositionCall (edge_calls from after b)
start-All (included n) h = (h, tt)
start-All (excluded n) h = (h, tt)
start-All unbounded h = tt

end-All : (b : Bound ℕ) → IsUsize b → All IsPositionCall (edge_calls to before b)
end-All (included n) h = (h, tt)
end-All (excluded n) h = (h, tt)
end-All unbounded h = tt

within-All :
    (o : Option (Bound ℕ × Bound ℕ))
    → OnSome IsUsizePair o
    → All IsPositionCall (optional_call within o)
within-All none h = tt
within-All (some r) h = (h, tt)

limit-All : (o : Option ℕ) → OnSome IsLimit o → All IsPositionCall (optional_call limit o)
limit-All none h = tt
limit-All (some n) h = (h, tt)

position_calls-All :
    (d : Direction) (b : Bounds ℕ) → IsUsizeBounds b → All IsPositionCall (position_calls d b)
position_calls-All d b v = (
  tt,
  All-append IsPositionCall (start_calls b) _ (start-All b.start v.start) (
      All-append IsPositionCall (end_calls b) _ (end-All b.end v.end) (
        All-append IsPositionCall (optional_call within b.within) _ (within-All b.within v.within)
          (limit-All b.limit v.limit))),
)

-- Every call of a deque query that was built carries positions that fit a usize or a positive
-- limit that does, and never a key prefix.
pub position_query-IsPositionCall :
    (name : String) (options : List (String × Value)) {q : Query ℕ}
    → position_query name options ≡ ok q
    → All IsPositionCall q
unfolding position_query
position_query-IsPositionCall name options h =
    let (d, ed, h1) = >>=-eq-ok (parse_direction name) _ h in
    let (k, ek, h2) = >>=-eq-ok (collect false options) _ h1 in
    let (b, eb, h3) = >>=-eq-ok (bounds position k) _ h2 in
    subst (λ r. All IsPositionCall r) (ok-injective _ _ h3)
      (position_calls-All d b (bounds-IsUsizeBounds k eb))

abbrev OneEdge : Option Value → Option Value → Type 0
OneEdge a b = (a ≡ none) ⊎ (b ≡ none)

edge-OneEdge :
    {T : Type 0} (convert : String → Value → Result Error T) (i : String) (a : Option Value)
    (e : String) (b : Option Value) {r : Bound T}
    → edge convert i a e b ≡ ok r
    → OneEdge a b
unfolding edge
edge-OneEdge convert i (some v) e (some w) h = cc
edge-OneEdge convert i (some v) e none h = inr refl
edge-OneEdge convert i none e b h = inl refl

-- Where the bounds of a query are translated, at most one of `from` and `after` is given, at most
-- one of `to` and `before`, and a given limit translates to a positive usize.
bounds-OneEdge :
    {T : Type 0} (convert : String → Value → Result Error T) (k : Keywords) {b : Bounds T}
    → bounds convert k ≡ ok b
    → OneEdge k.from k.after × OneEdge k.to k.before × OnSome IsLimit b.limit
unfolding bounds
bounds-OneEdge convert k h =
    let (start, es, h1) = >>=-eq-ok (edge convert "from" k.from "after" k.after) _ h in
    let (end, ee, h2) = >>=-eq-ok (edge convert "to" k.to "before" k.before) _ h1 in
    let (w, ew, h3) = >>=-eq-ok (traverse_option (range_bounds convert) k.within) _ h2 in
    let (l, el, h4) = >>=-eq-ok (traverse_option limit_of k.limit) _ h3 in
    (
      edge-OneEdge convert "from" k.from "after" k.after es,
      edge-OneEdge convert "to" k.to "before" k.before ee,
      ground (arith, h4, limit_of-OnSome k.limit el),
    )
