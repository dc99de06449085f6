-- ===== src/Handler/State/Deque/Ends.antt =====
-- A push and a pop at the same end of a list that has room.
use prosody_rb.Base.{
  ℕ, zero, suc, ◌<◌, ◌≤◌, ◌-◌, length, length-append, take, drop, arith, ◌≡◌, refl, ap, Option,
  none, some, List, [], ◌∷◌, ◌++◌, Result, ok, err,
}
use prosody_rb.Ruby.{Value, Error}
use prosody_rb.Ruby.Effects.Refines.{session}
use prosody_rb.Handler.State.Deque.Lists.{
  push_back, push_front, pop_front, pop_back, value, nothing, list_call, keep_back, keep_front,
  last, init,
}

module _ {A : Type 0} where
  last-snoc : (l : List A) (a : A) → last (l ++ (a ∷ [])) ≡ some a
  last-snoc [] a = refl
  last-snoc (b ∷ []) a = refl
  last-snoc (b ∷ c ∷ l) a = last-snoc (c ∷ l) a

  init-snoc : (l : List A) (a : A) → init (l ++ (a ∷ [])) ≡ l
  init-snoc [] a = refl
  init-snoc (b ∷ []) a = refl
  init-snoc (b ∷ c ∷ l) a = ap (λ t. b ∷ t) (init-snoc (c ∷ l) a)

  -- Room for one more.
  abbrev pub HasRoom : Option ℕ → List A → Type 0
  HasRoom none l = Unit
  HasRoom (some capacity) l = length l < capacity

  keep_back-room :
      (capacity : Option ℕ) (l : List A) (a : A)
      → HasRoom capacity l
      → keep_back capacity (l ++ (a ∷ [])) ≡ l ++ (a ∷ [])
  keep_back-room none l a room = refl
  keep_back-room (some n) l a room =
      let none_over : length (l ++ (a ∷ [])) - n ≡ 0 = omega (arith, length-append l (a ∷ [])) in
      ap (λ k. drop k (l ++ (a ∷ []))) none_over

  take-all : (n : ℕ) (l : List A) → length l ≤ n → take n l ≡ l
  take-all zero [] h = refl
  take-all zero (a ∷ l) h = absurd (omega arith)
  take-all (suc n) [] h = refl
  take-all (suc n) (a ∷ l) h = ap (λ t. a ∷ t) (take-all n l (omega arith))

  keep_front-room :
      (capacity : Option ℕ) (l : List A) (a : A)
      → HasRoom capacity l
      → keep_front capacity (a ∷ l) ≡ a ∷ l
  keep_front-room none l a room = refl
  keep_front-room (some n) l a room = take-all n (a ∷ l) (omega (arith, room))

-- A push and a pop at the same end of a list, and a push that is refused.
module _ {Item : Type 0} (capacity : Option ℕ) (convert : Value → Result Error Item)
    (show : Option Item → Value) where
  pub back_list :
      (v : Value) (item : Item)
      → convert v ≡ ok item
      → (l : List Item) → HasRoom capacity l
      → session (list_call capacity convert show) (push_back v ∷ pop_back ∷ []) l
        ≡ (ok nothing ∷ ok (value (show (some item))) ∷ [], l)
  back_list v item e l room =
      rw (e, keep_back-room capacity l item room, last-snoc l item, init-snoc l item) refl

  pub front_list :
      (v : Value) (item : Item)
      → convert v ≡ ok item
      → (l : List Item) → HasRoom capacity l
      → session (list_call capacity convert show) (push_front v ∷ pop_front ∷ []) l
        ≡ (ok nothing ∷ ok (value (show (some item))) ∷ [], l)
  front_list v item e l room = rw (e, keep_front-room capacity l item room) refl

  pub refused_list :
      (v : Value) (error : Error)
      → convert v ≡ err error
      → (l : List Item)
      → (session (list_call capacity convert show) (push_back v ∷ []) l ≡ (err error ∷ [], l))
        × (session (list_call capacity convert show) (push_front v ∷ []) l ≡ (err error ∷ [], l))
  refused_list v error e l = (rw e refl, rw e refl)
