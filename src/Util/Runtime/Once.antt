-- ===== src/Util/Runtime/Once.antt =====
-- The set-up happens once in a process.
use prosody_rb.Base.{
  ℕ, suc, String, Result, ok, err, ◌≡◌, refl, ◌⊎◌, inl, inr, subst, ap, sym, ◌∙◌, Bool, true, false,
  not, Option, none, some, if◌then◌else◌,
}
use prosody_rb.Util.Runtime.{
  Globals, Runtime, ensure_runtime_context, maybe_logger, reported, start_tracing,
}

module _ {B L W : Type 0} (r : Runtime B L W) where
  -- The statics after a call, from each of their states.
  first_call :
      (w : W) (bridge : Option B) (tracing : Bool)
      → let h =
          (ensure_runtime_context r
            (record { world = w; bridge = bridge; tracing_init = tracing })).1 in
        ((b : B) × (h.bridge ≡ some b))
        × ((bridge ≡ none) ⊎ (h.bridge ≡ bridge))
        × (h.tracing_init ≡ true)
  unfolding ensure_runtime_context
  first_call w none true = ((_, refl), inl refl, refl)
  first_call w none false = ((_, refl), inl refl, refl)
  first_call w (some b) true = ((b, refl), inr refl, refl)
  first_call w (some b) false = ((b, refl), inr refl, refl)

  -- A call where both statics are filled.
  second_call :
      (w : W) (bridge : Option B) (tracing : Bool) {b : B}
      → bridge ≡ some b
      → tracing ≡ true
      → ensure_runtime_context r (record { world = w; bridge = bridge; tracing_init = tracing }) ≡ (
        not (r.has_current w),
        record {
          world = if not (r.has_current w) then r.enter w else w;
          bridge = bridge;
          tracing_init = tracing;
        },
      )
  unfolding ensure_runtime_context
  second_call w none tracing e on = cc
  second_call w (some b) false e on = cc
  second_call w (some b) true e on = refl

  -- A count of the tracing set-ups in a world, which nothing else of what the set-up calls changes.
  pub record Counts (starts : W → ℕ) : Type 0 where
    pub enter_law : (w : W) → starts (r.enter w) ≡ starts w
    pub bridge_law : (w : W) → starts (r.new_bridge w).1 ≡ starts w
    pub logger_law : (b : B) (w : W) → starts (r.new_logger b w).1 ≡ starts w
    pub report_law : (e : String) (w : W) → starts (r.report e w) ≡ starts w
    pub tracing_law : (l : Option L) (w : W) → starts (r.initialize_tracing l w).1 ≡ suc (starts w)

  module _ (starts : W → ℕ) (laws : Counts starts) where
    maybe_logger-starts : (c : Result String L × W) → starts (maybe_logger r c).1 ≡ starts c.1
    maybe_logger-starts (ok l, w) = refl
    maybe_logger-starts (err e, w) = laws.report_law e w

    reported-starts : (c : Result String (Unit {0}) × W) → starts (reported r c) ≡ starts c.1
    reported-starts (ok u, w) = refl
    reported-starts (err e, w) = laws.report_law e w

    start_tracing-starts : (b : B) (w : W) → starts (start_tracing r b w) ≡ suc (starts w)
    unfolding start_tracing
    start_tracing-starts b w =
        reported-starts _
        ∙ laws.tracing_law _ _
        ∙ ap suc (maybe_logger-starts (r.new_logger b w) ∙ laws.logger_law b w)

    entered-starts : (w : W) (on : Bool) → starts (if on then r.enter w else w) ≡ starts w
    entered-starts w true = laws.enter_law w
    entered-starts w false = refl

    starts_of_call :
        (w : W) (bridge : Option B) (tracing : Bool)
        → starts
            (ensure_runtime_context r
              (record { world = w; bridge = bridge; tracing_init = tracing })).1.world
          ≡ (if tracing then starts w else suc (starts w))
    unfolding ensure_runtime_context
    starts_of_call w none true = laws.bridge_law _ ∙ entered-starts w _
    starts_of_call w (some b) true = entered-starts w _
    starts_of_call w none false =
        start_tracing-starts _ _ ∙ ap suc (laws.bridge_law _ ∙ entered-starts w _)
    starts_of_call w (some b) false = start_tracing-starts _ _ ∙ ap suc (entered-starts w _)

  -- After a call of `ensure_runtime_context` there is a bridge, and the tracing set-up has been run
  -- once if it had not been run before, and not at all otherwise. A bridge that was there already, as
  -- in a process forked from one that had made its bridge, stays. A second call makes no bridge and
  -- sets no tracing up, for it does no more than enter the runtime, and that only where no runtime is
  -- current. The runs are those that any count of tracing set-ups counts which each set-up raises by
  -- one and no other call of the set-up changes.
  pub ensure_runtime_context-once :
      (starts : W → ℕ)
      → Counts starts
      → (g h : Globals B W) (w : W) → (ensure_runtime_context r g).1 ≡ h
      → ((b : B) × (h.bridge ≡ some b))
        × ((g.bridge ≡ none) ⊎ (h.bridge ≡ g.bridge))
        × (h.tracing_init ≡ true)
        × (starts h.world ≡ (if g.tracing_init then starts g.world else suc (starts g.world)))
        × (ensure_runtime_context r (record h { world = w }) ≡ (
          not (r.has_current w),
          record h { world = if not (r.has_current w) then r.enter w else w },
        ))
  ensure_runtime_context-once starts laws g h w e =
      let (made, kept, on) = first_call g.world g.bridge g.tracing_init in
      let (b, full) = made in
      (
        (b, ap (λ k. k.bridge) (sym e) ∙ full),
        subst (λ k. (g.bridge ≡ none) ⊎ (k.bridge ≡ g.bridge)) e kept,
        ap (λ k. k.tracing_init) (sym e) ∙ on,
        ap (λ k. starts k.world) (sym e)
            ∙ starts_of_call starts laws g.world g.bridge g.tracing_init,
        second_call w h.bridge h.tracing_init (ap (λ k. k.bridge) (sym e) ∙ full)
            (ap (λ k. k.tracing_init) (sym e) ∙ on),
      )
