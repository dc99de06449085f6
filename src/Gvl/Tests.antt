-- ===== src/Gvl/Tests.antt =====
-- `without_gvl` on a concrete closure and schedule.
use prosody_rb.Base.{ℕ, zero, suc, ◌≡◌, some, [], ◌∷◌, ◌++◌}
use prosody_rb.Gvl.{Run, returned, panics, Heap, function, freed, caught, without_gvl}
use prosody_rb.Gvl.Safety.{without_gvl-safe}

-- A closure that panics on zero, and an unblocking closure that counts its calls.
abbrev predecessor : ℕ → Run ℕ
predecessor zero = panics
predecessor (suc n) = returned n

abbrev count_call : ℕ → ℕ × Run (Unit {0})
count_call n = (suc n, returned tt)

abbrev heap : Heap ℕ ℕ ℕ
heap = function 3 ∷ freed ∷ []

without_gvl-safe_example :
    without_gvl predecessor count_call 2 1 0 5 heap
    ≡ some (caught (predecessor 0), heap ++ (freed ∷ freed ∷ freed ∷ []))
without_gvl-safe_example = without_gvl-safe predecessor count_call heap 2 1 0 5
