-- ===== src/Ruby/Effects/Refines.antt =====
-- Code whose state is hidden does what an abstract description does to a view of that state.
use mathlib.Core.List.{map}
use prosody_rb.Base.{◌≡◌, refl, sym, ap, subst, ◌∙◌, Result, ok, err, All, List, [], ◌∷◌}
use prosody_rb.Ruby.{Error}
use prosody_rb.Ruby.Effects.{M, ◌>>=◌, and_then, pure, lift, collect_effects}

module _ {W S : Type 0} (view : W → S) where
  -- After a call, the result and the view are what the description `n` gives.
  abbrev pub Ends : {A : Type 0} → Result Error A × W → Result Error A × S → Type 0
  Ends r s = (w : W) × (r ≡ (s.0, w)) × (view w ≡ s.1)

  abbrev pub Refines : {A : Type 0} → M W A → M S A → Type 0
  Refines m n = (w : W) → Ends (m w) (n (view w))

  pub pure-Refines : {A : Type 0} (a : A) → Refines (pure a) (pure a)
  pure-Refines a w = (w, refl, refl)

  pub lift-Refines : {A : Type 0} (r : Result Error A) → Refines (lift r) (lift r)
  lift-Refines r w = (w, refl, refl)

  and_then-Ends :
      {A B : Type 0} (k : A → M W B) (l : A → M S B)
      → ((a : A) → Refines (k a) (l a))
      → (s : Result Error A × S) (w : W) → view w ≡ s.1
      → Ends (and_then (s.0, w) k) (and_then s l)
  and_then-Ends k l h (ok a, s) w e = subst (λ t. Ends (k a w) (l a t)) e (h a w)
  and_then-Ends k l h (err reason, s) w e = (w, refl, e)

  pub >>=-Refines :
      {A B : Type 0} (m : M W A) (n : M S A) (k : A → M W B) (l : A → M S B)
      → Refines m n
      → ((a : A) → Refines (k a) (l a))
      → Refines (m >>= k) (n >>= l)
  >>=-Refines m n k l first rest w =
      let (w', e, v) = first w in
      subst (λ r. Ends (and_then r k) (and_then (n (view w)) l)) (sym e)
        (and_then-Ends k l rest (n (view w)) w' v)

-- A loop that collects refines if each of its steps does, with no change of the view.
module _ {W S A B : Type 0} (view : W → S) (f : A → M W B) (h : A → B)
    (refines : (a : A) → Refines view (f a) (pure (h a))) where
  pub collect_effects-Refines : (l : List A) → Refines view (collect_effects f l) (pure (map h l))
  collect_effects-Refines [] w = (w, refl, refl)
  collect_effects-Refines (a ∷ l) w =
      >>=-Refines view (f a) (pure (h a)) (λ b. collect_effects f l >>= λ bs. pure (b ∷ bs))
        (λ b. pure (map h l) >>= λ bs. pure (b ∷ bs)) (refines a)
        (λ b.
          >>=-Refines view (collect_effects f l) (pure (map h l)) (λ bs. pure (b ∷ bs))
            (λ bs. pure (b ∷ bs)) (collect_effects-Refines l) (λ bs. pure-Refines view (b ∷ bs)))
        w

-- Calls in a row. A call that raises does not end the row.
abbrev pub session : {C R S : Type 0} → (C → M S R) → List C → S → List (Result Error R) × S
session run_call [] s = ([], s)
session run_call (c ∷ calls) s =
    let (r, s1) = run_call c s in let (rs, s2) = session run_call calls s1 in (r ∷ rs, s2)

-- Rows of calls refine if each call does.
module _ {C R W S : Type 0} (view : W → S) (run_call : C → M W R) (model : C → M S R)
    (refines : (c : C) → Refines view (run_call c) (model c)) where
  pub session-Refines :
      (calls : List C) (w : W)
      → ((session run_call calls w).0 ≡ (session model calls (view w)).0)
        × (view (session run_call calls w).1 ≡ (session model calls (view w)).1)
  session-Refines [] w = (refl, refl)
  session-Refines (c ∷ calls) w =
      let (w1, e, v) = refines c w in
      let (replies, final) = session-Refines calls w1 in
      rw e (
        ap (λ l. (model c (view w)).0 ∷ l) (replies ∙ ap (λ s. (session model calls s).0) v),
        final ∙ ap (λ s. (session model calls s).1) v,
      )

-- The same for rows of calls that meet a condition.
module _ {C R W S : Type 0} (view : W → S) (run_call : C → M W R) (model : C → M S R)
    (P : C → Type 0) (refines : (c : C) → P c → Refines view (run_call c) (model c)) where
  pub session-Refines_where :
      (calls : List C) (w : W)
      → All P calls
      → ((session run_call calls w).0 ≡ (session model calls (view w)).0)
        × (view (session run_call calls w).1 ≡ (session model calls (view w)).1)
  session-Refines_where [] w h = (refl, refl)
  session-Refines_where (c ∷ calls) w (h, hs) =
      let (w1, e, v) = refines c h w in
      let (replies, final) = session-Refines_where calls w1 hs in
      rw e (
        ap (λ l. (model c (view w)).0 ∷ l) (replies ∙ ap (λ s. (session model calls s).0) v),
        final ∙ ap (λ s. (session model calls s).1) v,
      )
