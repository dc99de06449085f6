-- ===== src/Handler/State/Query/Ranges.antt =====
-- The bounds of a query: ranges, positions and limits.
use prosody_rb.Base.{ℕ, pos, ◌≡◌, Bool, true, false, ◌&&◌, ok, if◌then◌else◌, arith, ltb, leb}
use prosody_rb.Ruby.{Value, nil, integer, range}
use prosody_rb.Handler.State.Query.Keywords.{
  Bound, included, excluded, unbounded, range_bounds, position,
}

-- `RangeBounds::contains` of a pair of bounds.
above : Bound ℕ → ℕ → Bool
above (included t) p = leb t p
above (excluded t) p = ltb t p
above unbounded p = true

below : Bound ℕ → ℕ → Bool
below (included t) p = leb p t
below (excluded t) p = ltb p t
below unbounded p = true

pub inside : Bound ℕ × Bound ℕ → ℕ → Bool
inside (low, high) p = above low p && below high p

-- Ruby's `Range#cover?` for an integer position, over integer or `nil` ends.
pub covers : Value → Value → Bool → ℕ → Bool
covers nil nil excl p = true
covers nil (integer (pos e)) excl p = if excl then ltb p e else leb p e
covers (integer (pos b)) nil excl p = leb b p
covers (integer (pos b)) (integer (pos e)) excl p = leb b p && (if excl then ltb p e else leb p e)
covers _ _ excl p = false

-- Where a position range translates, its bounds admit a position exactly when the Ruby range
-- covers it: a missing end is open, an exclusive range leaves its end out, and a descending range
-- admits nothing.
pub inside-range_bounds :
    (low high : Value) (excl : Bool) (p : ℕ) {bs : Bound ℕ × Bound ℕ}
    → range_bounds position (range low high excl) ≡ ok bs
    → inside bs p ≡ covers low high excl p
unfolding range_bounds position inside covers above below
inside-range_bounds low high excl p h = ground arith
