-- ===== src/Handler/State/Deque/Indexed.antt =====
-- Reads by index, over a native handle that is a list, read the list from its front or its back.
use prosody_rb.Base.{
  ℕ, zero, suc, ◌-◌, ◌<◌, ◌≤◌, ℤ, pos, negsuc, ◌≡◌, refl, sym, ap, ◌∙◌, ◌⊎◌, inl, inr, Option, none,
  List, [], ◌∷◌, ◌++◌, length, length-append, get_elem?, get-append_length, arith,
}
use prosody_rb.Handler.State.Deque.Lists.{last}

split : (m n : ℕ) → (m < n) ⊎ (n ≤ m)
split m n = omega arith

module _ {A : Type 0} where
  abbrev pub reversed : List A → List A
  reversed [] = []
  reversed (a ∷ l) = reversed l ++ (a ∷ [])

  -- The item at an index: -1 is the last one.
  abbrev pub at : List A → ℤ → Option A
  at l (pos n) = get_elem? l n
  at l (negsuc m) = get_elem? (reversed l) m

  length-reversed : (l : List A) → length (reversed l) ≡ length l
  length-reversed [] = refl
  length-reversed (a ∷ l) = omega (arith, length-append (reversed l) (a ∷ []), length-reversed l)

  get-append_first :
      (xs ys : List A) (i : ℕ) → i < length xs → get_elem? (xs ++ ys) i ≡ get_elem? xs i
  get-append_first [] ys i small = absurd (omega arith)
  get-append_first (x ∷ xs) ys zero small = refl
  get-append_first (x ∷ xs) ys (suc i) small = get-append_first xs ys i (omega arith)

  get-outside : (xs : List A) (i : ℕ) → length xs ≤ i → get_elem? xs i ≡ none
  get-outside [] i large = refl
  get-outside (x ∷ xs) zero large = absurd (omega arith)
  get-outside (x ∷ xs) (suc i) large = get-outside xs i (omega arith)

  pub last-reversed : (l : List A) → last l ≡ get_elem? (reversed l) 0
  last-reversed [] = refl
  last-reversed (a ∷ []) = refl
  last-reversed (a ∷ b ∷ l) =
      last-reversed (b ∷ l)
      ∙ sym (
          get-append_first (reversed (b ∷ l)) (a ∷ []) 0
            (omega (arith, length-append (reversed l) (b ∷ []))))

  -- Counting from the back.
  pub get-reversed :
      (l : List A) (m : ℕ)
      → m < length l
      → get_elem? l (length l - suc m) ≡ get_elem? (reversed l) m
  get-reversed [] m small = absurd (omega arith)
  get-reversed (a ∷ l) m small = elim (split m (length l)) [
    | inl inside ↦
        let deep : length (a ∷ l) - suc m ≡ suc (length l - suc m) = omega arith in
        ap (get_elem? (a ∷ l)) deep
        ∙ get-reversed l m inside
        ∙ sym (get-append_first (reversed l) (a ∷ []) m (omega (arith, length-reversed l)))
    | inr outside ↦
        let front : length (a ∷ l) - suc m ≡ 0 = omega arith in
        let end : m ≡ length (reversed l) = omega (arith, length-reversed l) in
        ap (get_elem? (a ∷ l)) front
        ∙ sym (ap (get_elem? (reversed l ++ (a ∷ []))) end ∙ get-append_length (reversed l) a)
  ]

  pub get_reversed-outside : (l : List A) (m : ℕ) → length l ≤ m → get_elem? (reversed l) m ≡ none
  get_reversed-outside l m large = get-outside (reversed l) m (omega (arith, length-reversed l))
