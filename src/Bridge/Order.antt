-- ===== src/Bridge/Order.antt =====
-- The bridge loses commands only to a panic of one, repeats none, and keeps their order.
use mathlib.Core.List.{append_assoc, flatten}
use mathlib.Core.Bool.{true≢false}
use prosody_rb.Base.{
  ◌⊎◌, inl, inr, Bool-cases, length-append, suc, ◌≤◌, ◌≡◌, refl, ap, sym, subst, ◌∙◌, Bool, true,
  false, List, [], ◌∷◌, ◌++◌, Result, ok, err, length, arith, if◌then◌else◌,
}
use prosody_rb.Bridge.{
  BridgeError, shutdown, poll_batch_size, Wake, Channel, Polled, Progress, blocked, done, Thread,
  run_all, run_batch, after_batch, returns, settle, after_poll, round, loop,
}
use prosody_rb.Bridge.Fair.{commands_of, IsFair, poll-IsFair}
use prosody_rb.Bridge.Batch.{effect, run_all-append, Panicked, batch}

module _ {F W : Type 0} (run_command : F → W → W × Bool) where
  -- All commands that are not run yet, in the order in which they were sent.
  abbrev pub pending : Thread F W → List F
  pending t = t.channel.queue ++ flatten t.arrivals

  -- The run from `t` to `u` executes some commands, in order, and leaves the rest pending, but for
  -- what a panic loses: the last command that was executed panicked, the thread has ended, and the
  -- lost commands are the next ones, fewer than a batch.
  pub record InOrder (t u : Thread F W) : Type 0 where
    pub executed : List F
    pub lost : List F
    pub world : u.world ≡ run_all (effect run_command) executed t.world
    pub order : executed ++ (lost ++ pending u) ≡ pending t
    pub fate :
        (lost ≡ [])
        ⊎ ((u.running ≡ false)
            × (suc (length lost) ≤ poll_batch_size)
            × Panicked run_command executed t.world)

  same-InOrder : (t : Thread F W) → InOrder t t
  same-InOrder t = record { executed = []; lost = []; world = refl; order = refl; fate = inl refl }

  InOrder-trans : (t u v : Thread F W) (a : InOrder t u) → a.lost ≡ [] → InOrder u v → InOrder t v
  InOrder-trans t u v a none_lost b = record {
    executed = a.executed ++ b.executed;
    lost = b.lost;
    world =
        b.world
        ∙ ap (run_all (effect run_command) b.executed) a.world
        ∙ sym (run_all-append (effect run_command) a.executed b.executed t.world);
    order =
        append_assoc a.executed b.executed (b.lost ++ pending v)
        ∙ ap (λ l. a.executed ++ l) b.order
        ∙ ap (λ l. a.executed ++ (l ++ pending u)) (sym none_lost)
        ∙ a.order;
    fate = elim b.fate [
      | inl none_later ↦ inl none_later
      | inr (off, few, (before, d, last, panics)) ↦ inr (
        off,
        few,
        (
          a.executed ++ before,
          d,
          ap (λ l. a.executed ++ l) last ∙ sym (append_assoc a.executed before (d ∷ [])),
          subst (λ w. (run_command d w).1 ≡ false)
              (ap (run_all (effect run_command) before) a.world
                ∙ sym (run_all-append (effect run_command) a.executed before t.world))
              panics,
        ),
      )
    ];
  }

  -- The thread after a batch that took `commands` and left `c` and `later`.
  batch-InOrder :
      (t : Thread F W) (c : Channel F) (later : List (List F)) (commands : List F) (r : W × Bool)
      → run_batch run_command commands t.world ≡ r
      → commands ++ (c.queue ++ flatten later) ≡ pending t
      → length commands ≤ poll_batch_size
      → InOrder t (after_batch run_command r (record t { channel = c; arrivals = later }))
  batch-InOrder t c later commands (w, true) e order few =
      let b = batch run_command commands t.world in
      record {
        executed = b.executed;
        lost = b.lost;
        world = sym (ap (λ p. p.0) e) ∙ b.world;
        order =
            sym (append_assoc b.executed b.lost (c.queue ++ flatten later))
            ∙ ap (λ l. l ++ (c.queue ++ flatten later)) (sym b.parts)
            ∙ order;
        fate = elim b.fate [
          | inl (on, none_lost) ↦ inl none_lost
          | inr (off, panics) ↦ absurd (true≢false (sym (ap (λ p. p.1) e) ∙ off))
        ];
      }
  batch-InOrder t c later commands (w, false) e order few =
      let b = batch run_command commands t.world in
      record {
        executed = b.executed;
        lost = b.lost;
        world = sym (ap (λ p. p.0) e) ∙ b.world;
        order =
            sym (append_assoc b.executed b.lost (c.queue ++ flatten later))
            ∙ ap (λ l. l ++ (c.queue ++ flatten later)) (sym b.parts)
            ∙ order;
        fate = elim b.fate [
          | inl (on, none_lost) ↦ inl none_lost
          | inr (off, (before, d, last, panics)) ↦ inr (
            refl,
            omega (
              arith,
              few,
              ap length b.parts,
              length-append b.executed b.lost,
              ap length last,
              length-append before (d ∷ []),
            ),
            (before, d, last, panics),
          )
        ];
      }

  after_poll-InOrder :
      (t : Thread F W) (p : Progress (Polled F))
      → IsFair (pending t) p
      → InOrder t (after_poll run_command t p)
  unfolding settle
  after_poll-InOrder t blocked h = same-InOrder t
  after_poll-InOrder t (done p) (order, few) = split p.taken order few
    where
      split :
          (taken : Result BridgeError (List F))
          → commands_of taken ++ (p.queue ++ flatten p.arrivals) ≡ pending t
          → length (commands_of taken) ≤ poll_batch_size
          → InOrder t (
              settle run_command taken (record t {
                channel = record { queue = p.queue; connected = t.channel.connected };
                arrivals = p.arrivals;
              }))
      split (ok commands) e f =
          batch-InOrder t (record { queue = p.queue; connected = t.channel.connected }) p.arrivals
            commands (run_batch run_command commands t.world) refl e f
      split (err shutdown) e f = record {
        executed = [];
        lost = [];
        world = refl;
        order = e;
        fate = inl refl;
      }
      split (err _) e f = record {
        executed = [];
        lost = [];
        world = refl;
        order = e;
        fate = inl refl;
      }

  round-InOrder : (wake : Wake) (t : Thread F W) → InOrder t (round run_command wake t)
  unfolding round
  round-InOrder wake t = after_poll-InOrder t _ (poll-IsFair wake t.channel t.arrivals)

  -- A thread that has ended does nothing more.
  loop-stopped :
      (wakes : List Wake) (t : Thread F W) → t.running ≡ false → loop run_command wakes t ≡ t
  unfolding loop
  loop-stopped [] t e = refl
  loop-stopped (wake ∷ wakes) t e =
      ap (λ on. loop run_command wakes (if on then round run_command wake t else t)) e
      ∙ loop-stopped wakes t e

  pub loop-InOrder : (wakes : List Wake) (t : Thread F W) → InOrder t (loop run_command wakes t)
  unfolding loop
  loop-InOrder [] t = same-InOrder t
  loop-InOrder (wake ∷ wakes) t = elim (Bool-cases t.running) [
    | inl on ↦
        let u = round run_command wake t in
        subst (λ b. InOrder t (loop run_command wakes (if b then u else t))) (sym on)
          (elim (round-InOrder wake t).fate [
            | inl none_lost ↦
                InOrder-trans t u _ (round-InOrder wake t) none_lost (loop-InOrder wakes u)
            | inr (off, few, panics) ↦
                subst (InOrder t) (sym (loop-stopped wakes u off)) (round-InOrder wake t)
          ])
    | inr off ↦
        subst (λ b. InOrder t (loop run_command wakes (if b then round run_command wake t else t)))
          (sym off) (loop-InOrder wakes t)
  ]

module _ {F W : Type 0} (run_command : F → W → W) where
  -- Where all commands return, none is lost.
  pub returns-lost : {t u : Thread F W} (h : InOrder (returns run_command) t u) → h.lost ≡ []
  returns-lost h = elim h.fate [
    | inl none_lost ↦ none_lost
    | inr (off, few, (before, d, last, panics)) ↦ absurd (true≢false panics)
  ]
