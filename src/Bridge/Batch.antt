-- ===== src/Bridge/Batch.antt =====
-- How the commands of a batch run, and what a panic among them loses.
use prosody_rb.Base.{
  ◌⊎◌, inl, inr, ◌≡◌, refl, ap, sym, subst, ◌∙◌, Bool, true, false, List, [], ◌∷◌, ◌++◌,
}
use prosody_rb.Bridge.{run_all, run_batch, go_on, returns}

-- What a command does, whether it returns or panics.
abbrev pub effect : {F W : Type 0} → (F → W → W × Bool) → F → W → W
effect run_command command w = (run_command command w).0

pub run_all-append :
    {F W : Type 0} (f : F → W → W) (xs ys : List F) (w : W)
    → run_all f (xs ++ ys) w ≡ run_all f ys (run_all f xs w)
run_all-append f [] ys w = refl
run_all-append f (x ∷ xs) ys w = run_all-append f xs ys (f x w)

module _ {F W : Type 0} (run_command : F → W → W × Bool) where
  -- The last of the commands panicked.
  abbrev pub Panicked : List F → W → Type 0
  Panicked executed w =
      (before : List F) × (c : F) × (executed ≡ before ++ (c ∷ []))
      × ((run_command c (run_all (effect run_command) before w)).1 ≡ false)

  -- How a batch runs: it executes a front of it, and loses the rest only to a panic.
  pub record Batch (commands : List F) (w : W) : Type 0 where
    pub executed : List F
    pub lost : List F
    pub parts : commands ≡ executed ++ lost
    pub world : (run_batch run_command commands w).0 ≡ run_all (effect run_command) executed w
    pub fate :
        (((run_batch run_command commands w).1 ≡ true) × (lost ≡ []))
        ⊎ (((run_batch run_command commands w).1 ≡ false) × Panicked executed w)

  cons-Batch :
      (c : F) (commands : List F) (w : W) (r : W × Bool)
      → run_command c w ≡ r
      → Batch commands r.0
      → Batch (c ∷ commands) w
  cons-Batch c commands w (w', false) e b = record {
    executed = c ∷ [];
    lost = commands;
    parts = refl;
    world =
        ap (λ p. (go_on run_command (run_batch run_command commands) p).0) e
        ∙ sym (ap (λ p. p.0) e);
    fate = inr (
      ap (λ p. (go_on run_command (run_batch run_command commands) p).1) e,
      ([], c, refl, ap (λ p. p.1) e),
    );
  }
  cons-Batch c commands w (w', true) e b = record {
    executed = c ∷ b.executed;
    lost = b.lost;
    parts = ap (λ l. c ∷ l) b.parts;
    world =
        ap (λ p. (go_on run_command (run_batch run_command commands) p).0) e
        ∙ b.world
        ∙ ap (run_all (effect run_command) b.executed) (sym (ap (λ p. p.0) e));
    fate = elim b.fate [
      | inl (on, none_lost) ↦
          inl (ap (λ p. (go_on run_command (run_batch run_command commands) p).1) e ∙ on, none_lost)
      | inr (off, (before, d, last, panics)) ↦ inr (
        ap (λ p. (go_on run_command (run_batch run_command commands) p).1) e ∙ off,
        (
          c ∷ before,
          d,
          ap (λ l. c ∷ l) last,
          subst (λ v. (run_command d (run_all (effect run_command) before v)).1 ≡ false)
              (sym (ap (λ p. p.0) e)) panics,
        ),
      )
    ];
  }

  pub batch : (commands : List F) (w : W) → Batch commands w
  batch [] w = record {
    executed = [];
    lost = [];
    parts = refl;
    world = refl;
    fate = inl (refl, refl);
  }
  batch (c ∷ commands) w =
      cons-Batch c commands w (run_command c w) refl (batch commands (run_command c w).0)

module _ {F W : Type 0} (run_command : F → W → W) where
  pub run_batch-returns :
      (commands : List F) (w : W)
      → run_batch (returns run_command) commands w ≡ (run_all run_command commands w, true)
  run_batch-returns [] w = refl
  run_batch-returns (c ∷ commands) w = run_batch-returns commands (run_command c w)
