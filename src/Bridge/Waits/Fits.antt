-- ===== src/Bridge/Waits/Fits.antt =====
-- The queues of waits, each with nothing but the output of its own wait.
use prosody_rb.Base.{
  ℕ, zero, suc, ◌≡◌, refl, ap, subst, some, List, [], ◌∷◌, ◌++◌, length, All, All-append, get_elem?,
  update,
}
use prosody_rb.Bridge.Waits.{Any, DynamicResult, held, drop_first}

module _ {V : Type 0} where
  -- Each queue holds nothing but the output of its own wait.
  abbrev pub Fits : List (List (DynamicResult V)) → List (Any V) → Type 0
  Fits [] [] = Unit
  Fits [] (o ∷ outputs) = ⊥
  Fits (q ∷ queues) [] = ⊥
  Fits (q ∷ queues) (o ∷ outputs) = All (λ d. d ≡ held o) q × Fits queues outputs

  pub Fits-append :
      (queues : List (List (DynamicResult V))) (outputs : List (Any V)) (o : Any V)
      → Fits queues outputs
      → Fits (queues ++ ([] ∷ [])) (outputs ++ (o ∷ []))
  Fits-append [] [] o h = (tt, tt)
  Fits-append [] (p ∷ outputs) o h = absurd h
  Fits-append (q ∷ queues) [] o h = absurd h
  Fits-append (q ∷ queues) (p ∷ outputs) o h = (h.0, Fits-append queues outputs o h.1)

  pub Fits-push :
      (i : ℕ) (queues : List (List (DynamicResult V))) (outputs : List (Any V)) (o : Any V)
      → get_elem? outputs i ≡ some o
      → Fits queues outputs
      → Fits (update i (λ q. q ++ (held o ∷ [])) queues) outputs
  Fits-push i [] outputs o e h = h
  Fits-push i (q ∷ queues) [] o e h = absurd h
  Fits-push zero (q ∷ queues) (p ∷ outputs) o e h =
      (All-append (λ d. d ≡ held p) q _ h.0 (cc, tt), h.1)
  Fits-push (suc i) (q ∷ queues) (p ∷ outputs) o e h = (h.0, Fits-push i queues outputs o e h.1)

  All-drop_first :
      (P : DynamicResult V → Type 0) (q : List (DynamicResult V)) → All P q → All P (drop_first q)
  All-drop_first P [] h = h
  All-drop_first P (d ∷ q) h = h.1

  pub Fits-drop :
      (i : ℕ) (queues : List (List (DynamicResult V))) (outputs : List (Any V))
      → Fits queues outputs
      → Fits (update i drop_first queues) outputs
  Fits-drop i [] outputs h = h
  Fits-drop i (q ∷ queues) [] h = absurd h
  Fits-drop zero (q ∷ queues) (p ∷ outputs) h = (All-drop_first (λ d. d ≡ held p) q h.0, h.1)
  Fits-drop (suc i) (q ∷ queues) (p ∷ outputs) h = (h.0, Fits-drop i queues outputs h.1)

  pub Fits-length :
      (queues : List (List (DynamicResult V))) (outputs : List (Any V))
      → Fits queues outputs
      → length queues ≡ length outputs
  Fits-length [] [] h = refl
  Fits-length [] (p ∷ outputs) h = absurd h
  Fits-length (q ∷ queues) [] h = absurd h
  Fits-length (q ∷ queues) (p ∷ outputs) h = ap suc (Fits-length queues outputs h.1)

  pub Fits-get :
      (i : ℕ) (queues : List (List (DynamicResult V))) (outputs : List (Any V)) {o : Any V}
      {q : List (DynamicResult V)}
      → Fits queues outputs
      → get_elem? outputs i ≡ some o
      → get_elem? queues i ≡ some q
      → All (λ d. d ≡ held o) q
  Fits-get i [] outputs h e g = cc
  Fits-get i (p ∷ queues) [] h e g = absurd h
  Fits-get zero (p ∷ queues) (r ∷ outputs) {o} {q} h e g =
      let o_eq : r ≡ o = cc in
      let q_eq : p ≡ q = cc in
      subst (λ a. All (λ d. d ≡ held a) q) o_eq (subst (All (λ d. d ≡ held r)) q_eq h.0)
  Fits-get (suc i) (p ∷ queues) (r ∷ outputs) h e g = Fits-get i queues outputs h.1 e g
