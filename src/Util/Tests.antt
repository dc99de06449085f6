-- ===== src/Util/Tests.antt =====
-- Drops of shared values on concrete threads.
use prosody_rb.Base.{ℕ, Bool, true, false, ◌≡◌, List, [], ◌∷◌}
use prosody_rb.Bridge.{Channel, run_all}
use prosody_rb.Util.Drop.{Heap, ruby_drop, drop_all}
use prosody_rb.Util.Drop.Once.{drop_all-unregistered}

abbrev drops : List (Bool × ℕ)
drops = (true, 1) ∷ (false, 2) ∷ (false, 3) ∷ (true, 4) ∷ []

abbrev channel : Channel ℕ
channel = record { queue = 9 ∷ []; connected = true }

abbrev heap : Heap ℕ
heap = record { unregistered = []; leaked = [] }

drop_all-unregistered_example :
    run_all
      (ruby_drop true)
      (drop_all true drops (channel, heap)).0.queue
      (drop_all true drops (channel, heap)).1
    ≡ record { unregistered = 1 ∷ 4 ∷ 9 ∷ 2 ∷ 3 ∷ []; leaked = [] }
drop_all-unregistered_example = drop_all-unregistered drops channel heap
