-- ===== src/Bridge/Drain.antt =====
-- A bridge whose senders are gone runs what is left and ends.
use prosody_rb.Base.{
  ℕ, zero, suc, ◌*◌, ◌≤◌, ◌≡◌, refl, ap, sym, subst, ◌∙◌, true, false, List, [], ◌∷◌, ok, length,
  arith, replicate, take, drop, take-append-drop, length-drop,
}
use prosody_rb.Bridge.{
  poll_batch_size, Wake, ready, drain, receive_batch, poll, Thread, run_all, returns, after_batch,
  after_poll, done, settle, round, loop, try_recv,
}
use prosody_rb.Bridge.Batch.{run_all-append, run_batch-returns}
use mathlib.Core.List.{append-nil}

module _ {F : Type 0} where
  take_drop : ℕ → List F → List F × List F × List (List F)
  take_drop n queue = (take n queue, drop n queue, [])

  try_recv-take_drop :
      (room : ℕ) (more : List F → List F × List F × List (List F)) (queue : List F)
      → ((rest : List F) → more rest ≡ take_drop room rest)
      → try_recv more [] queue ≡ take_drop (suc room) queue
  unfolding take_drop
  try_recv-take_drop room more [] h = refl
  try_recv-take_drop room more (command ∷ rest) h =
      λ i. (command ∷ (h rest i).0, (h rest i).1, (h rest i).2)

  drain-take_drop : (room : ℕ) (queue : List F) → drain room queue [] ≡ take_drop room queue
  unfolding drain
  drain-take_drop zero queue = unfold take_drop in refl
  drain-take_drop (suc room) queue =
      rw (append-nil queue)
        (try_recv-take_drop room (λ rest. drain room rest []) queue (drain-take_drop room))

module _ {F W : Type 0} (run_command : F → W → W) where
  -- The thread when all senders are gone.
  abbrev pub abandoned : List F → W → Thread F W
  abandoned queue w = record {
    channel = record { queue = queue; connected = false };
    arrivals = [];
    running = true;
    world = w;
  }

  polled :
      (first : F) (rest : List F) (w : W)
      → poll ready (abandoned (first ∷ rest) w).channel []
        ≡ done (record { taken = ok (first ∷ take 15 rest); queue = drop 15 rest; arrivals = [] })
  unfolding poll receive_batch take_drop
  polled first rest w = rw (append-nil rest, drain-take_drop 15 rest) refl

  -- One round on a channel that is not empty runs a batch.
  round-abandoned :
      (first : F) (rest : List F) (w : W)
      → round (returns run_command) ready (abandoned (first ∷ rest) w)
        ≡ abandoned (drop 15 rest) (run_all run_command (first ∷ take 15 rest) w)
  unfolding round settle poll receive_batch take_drop
  round-abandoned first rest w =
      ap (after_poll (returns run_command) (abandoned (first ∷ rest) w)) (polled first rest w)
      ∙ ap
          (λ r. after_batch (returns run_command) r (record (abandoned (first ∷ rest) w) {
            channel = record { queue = drop 15 rest; connected = false };
          }))
          (run_batch-returns run_command (first ∷ take 15 rest) w)

  abbrev ended : W → Thread F W
  ended w = record {
    channel = record { queue = []; connected = false };
    arrivals = [];
    running = false;
    world = w;
  }

  loop-ended : (wakes : List Wake) (w : W) → loop (returns run_command) wakes (ended w) ≡ ended w
  unfolding loop
  loop-ended [] w = refl
  loop-ended (wake ∷ wakes) w = loop-ended wakes w

  -- When all senders are gone and at most sixteen times `k` commands are left, `k` + 1 polls that
  -- are not interrupted run them all, in order, and end the thread, if none of them panics.
  pub loop-abandoned :
      (k : ℕ) (queue : List F) (w : W)
      → length queue ≤ poll_batch_size * k
      → let t = loop (returns run_command) (replicate (suc k) ready) (abandoned queue w) in
        (t.running ≡ false) × (t.world ≡ run_all run_command queue w)
  unfolding loop
  loop-abandoned k [] w h = rw (loop-ended (replicate k ready) w) (refl, refl)
  loop-abandoned zero (first ∷ rest) w h = absurd (omega arith)
  loop-abandoned (suc k) (first ∷ rest) w h =
      let w' = run_all run_command (first ∷ take 15 rest) w in
      let (stops, runs) = loop-abandoned k (drop 15 rest) w' (omega (arith, length-drop 15 rest)) in
      subst
        (λ t.
          let u = loop (returns run_command) (replicate (suc k) ready) t in
          (u.running ≡ false) × (u.world ≡ run_all run_command (first ∷ rest) w))
        (sym (round-abandoned first rest w))
        (
          stops,
          runs
              ∙ sym (run_all-append run_command (take 15 rest) (drop 15 rest) (run_command first w))
              ∙ ap (λ l. run_all run_command l (run_command first w)) (take-append-drop 15 rest),
        )
