-- ===== src/Handler/State/Query/Tests.antt =====
-- Queries over concrete keyword hashes.
use prosody_rb.Base.{◌≡◌, refl, pos, String, true, false, List, [], ◌∷◌, All}
use prosody_rb.Ruby.{Value, nil, integer}
use prosody_rb.Handler.State.Query.Keywords.{
  no_keywords, collect, collect_from, set_slot, included, excluded, range_bounds, bounds, position,
  edge, limit_of,
}
use prosody_rb.Handler.State.Query.Build.{backward, QueryCall, position_query, parse_direction}
use prosody_rb.Handler.State.Query.Slots.{collected, first_unknown, fill, collect-fill}
use prosody_rb.Handler.State.Query.Ranges.{inside, covers, inside-range_bounds}
use prosody_rb.Handler.State.Query.Calls.{IsPositionCall, position_query-IsPositionCall}

abbrev options : List (String × Value)
options = ("from", integer (pos 3)) ∷ ("limit", integer (pos 10)) ∷ ("to", nil) ∷ []

collect-fill_example :
    collect false options ≡ collected (first_unknown false options) (fill no_keywords options)
collect-fill_example = collect-fill false options

inside-range_bounds_example :
    inside (included 2, excluded 5) 4 ≡ covers (integer (pos 2)) (integer (pos 5)) true 4
unfolding range_bounds position
inside-range_bounds_example = inside-range_bounds (integer (pos 2)) (integer (pos 5)) true 4 refl

position_query-IsPositionCall_example :
    All IsPositionCall (QueryCall.direction backward ∷ QueryCall.from 3 ∷ QueryCall.limit 10 ∷ [])
unfolding position_query collect collect_from set_slot bounds edge position limit_of parse_direction
position_query-IsPositionCall_example = position_query-IsPositionCall "backward" options refl
