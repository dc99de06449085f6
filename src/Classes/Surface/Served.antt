-- ===== src/Classes/Surface/Served.antt =====
-- What Ruby finds once the extension is loaded.
use mathlib.Core.Bool.{false≢true}
use prosody_rb.Base.{
  Bool, Bool-cases, true, String, ◌≡◌, refl, sym, subst, inl, inr, some, Option-cases, ok, List, [],
  ◌∷◌, ◌++◌,
}
use prosody_rb.Ruby.{Value}
use prosody_rb.Classes.{Method, Definer}
use prosody_rb.Classes.Init.{init}
use prosody_rb.Classes.Surface.{Definition, Target, a_class, a_method, an_exit_hook, surface}
use prosody_rb.Classes.Surface.Laws.{Outcome, IsDefiner}
use prosody_rb.Classes.Surface.Registered.{init-Makes}
use prosody_rb.Classes.Surface.Calls.{found, is_accepted, stands, all_of, Call, library_calls}

found-append :
    (l ds : List Definition) (t : Target) (name : String) (m : Method)
    → found ds t name ≡ some m
    → found (l ++ ds) t name ≡ some m
found-append [] ds t name m e = e
found-append (d ∷ l) ds t name m e = rw (found-append l ds t name m e) refl

is_accepted-append :
    (l ds : List Definition) (c : Call) → is_accepted ds c ≡ true → is_accepted (l ++ ds) c ≡ true
is_accepted-append l ds c e = elim (Option-cases (found ds c.target c.name)) [
  | inl is_none ↦ absurd (false≢true (rw is_none at e))
  | inr (m, is_some) ↦ rw (found-append l ds c.target c.name m is_some) (rw is_some at e)
]

stands-append :
    (l ds : List Definition) (d : Definition) → stands ds d ≡ true → stands (l ++ ds) d ≡ true
stands-append l ds (a_class name) e = refl
stands-append l ds an_exit_hook e = refl
stands-append l ds (a_method t m) e = elim (Option-cases (found ds t m.name)) [
  | inl is_none ↦ absurd (false≢true (rw is_none at e))
  | inr (n, is_some) ↦ rw (found-append l ds t m.name n is_some) (rw is_some at e)
]

all_of_mono :
    {A : Type 0} (p q : A → Bool)
    → ((a : A) → p a ≡ true → q a ≡ true)
    → (l : List A) → all_of p l ≡ true
    → all_of q l ≡ true
all_of_mono p q h [] e = refl
all_of_mono p q h (a ∷ l) e = elim (Bool-cases (p a)) [
  | inl is_so ↦ rw (h a is_so) (all_of_mono p q h l (rw is_so at e))
  | inr is_not ↦ absurd (false≢true (rw is_not at e))
]

module _ {W : Type 0} (log : W → List Definition) (named : Value → String) (rb : Definer W)
    (laws : IsDefiner log named rb) where
  -- Once the entry point has succeeded, every call of a native method that the Ruby library makes or
  -- documents finds a method of its class under its name that takes as many arguments; and every
  -- method that was defined is the one found under its name, replaced by no later one. This holds
  -- whatever was defined before.
  pub init-serves :
      (w w' : W)
      → init rb w ≡ (ok tt, w')
      → (all_of (is_accepted (log w')) library_calls ≡ true)
        × (all_of (stands (log w')) surface ≡ true)
  init-serves w w' success =
      let (made, _) =
        subst (Outcome log surface (λ _. Unit) w) success ((init-Makes log named rb laws).ends w) in
      subst
        (λ l. (all_of (is_accepted l) library_calls ≡ true) × (all_of (stands l) surface ≡ true))
        (sym made)
        (
          all_of_mono (is_accepted surface) (is_accepted (log w ++ surface))
              (is_accepted-append (log w) surface) library_calls refl,
          all_of_mono (stands surface) (stands (log w ++ surface)) (stands-append (log w) surface)
              surface refl,
        )
