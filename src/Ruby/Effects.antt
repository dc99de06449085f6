-- ===== src/Ruby/Effects.antt =====
-- Code that calls out of the extension. `W` is everything outside: the Ruby VM, the Prosody core,
-- the bridge. A call may fail, and leaves a new outside behind either way.
pub mod Refines
use prosody_rb.Base.{◌≡◌, refl, Result, ok, err, List, [], ◌∷◌}
use prosody_rb.Ruby.{Error}

abbrev pub Eff : Type 0 → Type 0 → Type 0 → Type 0
Eff E W A = W → Result E A × W

-- A call that fails with a Ruby error.
abbrev pub M : Type 0 → Type 0 → Type 0
M W A = Eff Error W A

abbrev pub and_then : {E W A B : Type 0} → Result E A × W → (A → Eff E W B) → Result E B × W
and_then (ok a, w) f = f a w
and_then (err e, w) f = (err e, w)

infixl 5 ◌>>=◌ ◌>>◌
abbrev pub ◌>>=◌ : {E W A B : Type 0} → Eff E W A → (A → Eff E W B) → Eff E W B
◌>>=◌ m f w = and_then (m w) f

abbrev pub ◌>>◌ : {E W A B : Type 0} → Eff E W A → Eff E W B → Eff E W B
m >> k = m >>= λ _. k

abbrev pub pure : {E W A : Type 0} → A → Eff E W A
pure a w = (ok a, w)

-- A computation with no outside effect.
abbrev pub lift : {E W A : Type 0} → Result E A → Eff E W A
lift r w = (r, w)

-- A loop that collects one result for each item and stops at the first error.
abbrev pub collect_effects : {E W A B : Type 0} → (A → Eff E W B) → List A → Eff E W (List B)
collect_effects f [] w = (ok [], w)
collect_effects f (a ∷ l) w =
    and_then (f a w) (λ b. λ w'. and_then (collect_effects f l w') (λ bs. pure (b ∷ bs)))

-- Inversion of a successful bind.
pub and_then-eq-ok :
    {E W A B : Type 0} (r : Result E A × W) (f : A → Eff E W B) {b : B} {w : W}
    → and_then r f ≡ (ok b, w)
    → (a : A) × (w1 : W) × (r ≡ (ok a, w1)) × (f a w1 ≡ (ok b, w))
and_then-eq-ok (ok a, w1) f success = (a, w1, refl, success)
and_then-eq-ok (err e, w1) f success = cc
