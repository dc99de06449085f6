-- ===== src/Util/Drop/Once.antt =====
-- Where the dropped values end.
use mathlib.Core.List.{append_assoc, append-nil}
use prosody_rb.Base.{◌≡◌, ◌∙◌, Bool, true, false, List, [], ◌∷◌, ◌++◌, arith}
use prosody_rb.Bridge.{Channel, send, run_all}
use prosody_rb.Util.Drop.{Heap, ruby_drop, drop, drop_all, dropped}

module _ {V : Type 0} where
  drop_all-alive :
      (drops : List (Bool × V)) (c : Channel V) (h : Heap V)
      → drop_all true drops (c, h) ≡ (
        record c { queue = c.queue ++ dropped false drops },
        record h { unregistered = h.unregistered ++ dropped true drops },
      )
  unfolding drop_all drop ruby_drop send
  drop_all-alive [] c h = ground (arith, append-nil c.queue, append-nil h.unregistered)
  drop_all-alive ((true, v) ∷ drops) c h =
      drop_all-alive drops c _
      ∙ ground (arith, append_assoc h.unregistered (v ∷ []) (dropped true drops))
  drop_all-alive ((false, v) ∷ drops) c h =
      drop_all-alive drops _ h ∙ ground (arith, append_assoc c.queue (v ∷ []) (dropped false drops))

  -- If the bridge is gone, then the values dropped on Ruby threads are unregistered and the others
  -- leak, each once and in order, and nothing is sent.
  pub drop_all-gone :
      (drops : List (Bool × V)) (c : Channel V) (h : Heap V)
      → drop_all false drops (c, h) ≡ (
        c,
        record {
          unregistered = h.unregistered ++ dropped true drops;
          leaked = h.leaked ++ dropped false drops;
        },
      )
  unfolding drop_all drop ruby_drop send
  drop_all-gone [] c h = ground (arith, append-nil h.leaked, append-nil h.unregistered)
  drop_all-gone ((true, v) ∷ drops) c h =
      drop_all-gone drops c _
      ∙ ground (arith, append_assoc h.unregistered (v ∷ []) (dropped true drops))
  drop_all-gone ((false, v) ∷ drops) c h =
      drop_all-gone drops c _ ∙ ground (arith, append_assoc h.leaked (v ∷ []) (dropped false drops))

  run_all-drop :
      (queue : List V) (h : Heap V)
      → run_all (ruby_drop true) queue h ≡ record h { unregistered = h.unregistered ++ queue }
  unfolding ruby_drop
  run_all-drop [] h = ground (arith, append-nil h.unregistered)
  run_all-drop (v ∷ queue) h =
      run_all-drop queue _ ∙ ground (arith, append_assoc h.unregistered (v ∷ []) queue)

  -- While the bridge receives, and once the Ruby thread has run what is queued, every dropped value
  -- is unregistered once: the ones dropped on Ruby threads first, then the ones that were queued.
  -- None leaks.
  pub drop_all-unregistered :
      (drops : List (Bool × V)) (c : Channel V) (h : Heap V)
      → run_all (ruby_drop true) (drop_all true drops (c, h)).0.queue (drop_all true drops (c, h)).1
        ≡ record h {
          unregistered = (h.unregistered ++ dropped true drops) ++ (c.queue ++ dropped false drops);
        }
  drop_all-unregistered drops c h = rw (drop_all-alive drops c h) (
      run_all-drop (c.queue ++ dropped false drops)
        (record h { unregistered = h.unregistered ++ dropped true drops }))
