-- ===== src/Handler/State/Handles/Laws.antt =====
-- What the handles of keyed state need of the core and of Ruby, where their state is viewed as `S`.
use prosody_rb.Base.{◌≡◌, refl, ap, subst, ◌∙◌, Result, ok, err}
use prosody_rb.Ruby.{Error}
use prosody_rb.Ruby.Effects.{M, ◌>>=◌, pure, lift}
use prosody_rb.Ruby.Effects.Refines.{Refines, pure-Refines, >>=-Refines}
use prosody_rb.Ruby.Vm.{Vm, Carrier, extract_opentelemetry_context}
use prosody_rb.Handler.State.Handles.{ErasedStateError, run_state}

-- What a call does to the state, with its result.
abbrev pub does : {S A : Type 0} → (S → A × S) → M S A
does f s = (ok (f s).0, (f s).1)

module _ {W S : Type 0} (view : W → S) where
  -- The tracing context is extracted, and the viewed state stays.
  abbrev pub Traces : Vm W → Type 0
  Traces vm =
      (w : W)
      → (context : Carrier) × (w' : W) × (extract_opentelemetry_context vm w ≡ (ok context, w'))
        × (view w' ≡ view w)

  -- An operation of the core does `f`, whatever the tracing context.
  pub record Does {A : Type 0} (operation : Carrier → M W (Result ErasedStateError A))
      (f : S → A × S) : Type 0 where
    pub runs :
        (context : Carrier) → Refines view (operation context) (does (λ s. (ok (f s).0, (f s).1)))

  pub run_state-Refines :
      {A : Type 0} (vm : Vm W) (operation : Carrier → M W (Result ErasedStateError A))
      (f : S → A × S)
      → Traces vm
      → Does operation f
      → Refines view (run_state vm operation) (does f)
  unfolding run_state
  run_state-Refines vm operation f traces law w =
      let (context, w1, extracted, same) = traces w in
      let (w2, replied, left) = law.runs context w1 in
      let answered : run_state vm operation w ≡ (ok (f (view w1)).0, w2) =
        rw (extracted, replied) refl in
      (
        w2,
        subst (λ v. run_state vm operation w ≡ (ok (f v).0, w2)) same answered,
        left ∙ ap (λ v. (f v).1) same,
      )

-- The three shapes of a handle's method, with `reply` for what it returns.
module _ {W S : Type 0} (view : W → S) (vm : Vm W) (traces : Traces view vm) {R : Type 0} where
  -- An operation of the core, and its answer.
  pub answered-Refines :
      {A : Type 0} {operation : Carrier → M W (Result ErasedStateError A)} {f : S → A × S}
      (reply : A → R)
      → Does view operation f
      → Refines view
          (run_state vm operation >>= λ a. pure (reply a))
          (does f >>= λ a. pure (reply a))
  answered-Refines {operation} {f} reply law =
      >>=-Refines view (run_state vm operation) (does f) (λ a. pure (reply a)) (λ a. pure (reply a))
        (run_state-Refines view vm operation f traces law) (λ a. pure-Refines view (reply a))

  -- The same, with a conversion of the answer between.
  pub converted-Refines :
      {A B : Type 0} {operation : Carrier → M W (Result ErasedStateError A)} {f : S → A × S}
      (k : A → M W B) (h : A → B) (reply : B → R)
      → ((a : A) → Refines view (k a) (pure (h a)))
      → Does view operation f
      → Refines view
          ((run_state vm operation >>= k) >>= λ b. pure (reply b))
          ((does f >>= λ a. pure (h a)) >>= λ b. pure (reply b))
  converted-Refines {operation} {f} k h reply converts law =
      >>=-Refines view (run_state vm operation >>= k) (does f >>= λ a. pure (h a))
        (λ b. pure (reply b)) (λ b. pure (reply b))
        (>>=-Refines view (run_state vm operation) (does f) k (λ a. pure (h a))
          (run_state-Refines view vm operation f traces law) converts)
        (λ b. pure-Refines view (reply b))

  -- A conversion of the argument, which may fail, and then an operation that changes the state.
  pub stored-Refines :
      {Item : Type 0} (prepare : M W Item) (converted : Result Error Item)
      {operation : Item → Carrier → M W (Result ErasedStateError (Unit {0}))} (f : Item → S → S)
      (reply : R)
      → Refines view prepare (lift converted)
      → ((item : Item) → converted ≡ ok item → Does view (operation item) (λ s. (tt, f item s)))
      → Refines view
          ((prepare >>= λ item. run_state vm (operation item)) >>= λ _. pure reply)
          ((lift converted >>= λ item. does (λ s. (tt, f item s))) >>= λ _. pure reply)
  stored-Refines prepare (err e) f reply prepares law w =
      let (w1, run, same) = prepares w in rw run (w1, refl, same)
  stored-Refines prepare (ok item) {operation} f reply prepares law w =
      let (w1, run, same) = prepares w in
      let (w2, run2, left) =
        run_state-Refines view vm (operation item) (λ s. (tt, f item s)) traces (law item refl)
          w1 in
      rw (run, run2) (w2, refl, left ∙ ap (f item) same)
