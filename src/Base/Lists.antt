-- ===== src/Base/Lists.antt =====
-- Lists over the native numbers.
use Prim.Native.Nat.{ℕ, zero, suc, ◌+◌, ◌-◌, ◌≤◌}
use mathlib.Core.Path.{◌≡◌, refl, ap, subst}
use mathlib.Core.Option.{Option, none, some}
use mathlib.Core.List.{List, [], ◌∷◌, ◌++◌}
use native.Mathlib.Omega.{arith}

module _ {ℓ} {A : Type ℓ} where
  abbrev pub length : List A → ℕ
  length [] = 0
  length (x ∷ xs) = suc (length xs)

  abbrev pub take : ℕ → List A → List A
  take zero xs = []
  take (suc n) [] = []
  take (suc n) (x ∷ xs) = x ∷ take n xs

  abbrev pub drop : ℕ → List A → List A
  drop zero xs = xs
  drop (suc n) [] = []
  drop (suc n) (x ∷ xs) = drop n xs

  pub take-append-drop : (n : ℕ) (xs : List A) → take n xs ++ drop n xs ≡ xs
  take-append-drop zero xs = refl
  take-append-drop (suc n) [] = refl
  take-append-drop (suc n) (x ∷ xs) = ap (λ t. x ∷ t) (take-append-drop n xs)

  pub length-take-le : (n : ℕ) (xs : List A) → length (take n xs) ≤ n
  length-take-le zero xs = omega arith
  length-take-le (suc n) [] = omega arith
  length-take-le (suc n) (x ∷ xs) = omega (arith, length-take-le n xs)

  pub length-drop : (n : ℕ) (xs : List A) → length (drop n xs) ≡ length xs - n
  length-drop zero xs = omega arith
  length-drop (suc n) [] = omega arith
  length-drop (suc n) (x ∷ xs) = omega (arith, length-drop n xs)

  pub length-append : (xs ys : List A) → length (xs ++ ys) ≡ length xs + length ys
  length-append [] ys = omega arith
  length-append (x ∷ xs) ys = omega (arith, length-append xs ys)

-- Lists by index.
module _ {ℓ} {A : Type ℓ} where
  abbrev pub get_elem? : List A → ℕ → Option A
  get_elem? [] i = none
  get_elem? (x ∷ xs) zero = some x
  get_elem? (x ∷ xs) (suc i) = get_elem? xs i

  abbrev pub update : ℕ → (A → A) → List A → List A
  update i f [] = []
  update zero f (x ∷ xs) = f x ∷ xs
  update (suc i) f (x ∷ xs) = x ∷ update i f xs

  abbrev pub remove : ℕ → List A → List A
  remove i [] = []
  remove zero (x ∷ xs) = xs
  remove (suc i) (x ∷ xs) = x ∷ remove i xs

module _ {ℓ} {A : Type ℓ} where
  pub get-append :
      (xs more : List A) (i : ℕ) {o : A}
      → get_elem? xs i ≡ some o
      → get_elem? (xs ++ more) i ≡ some o
  get-append [] more i e = cc
  get-append (p ∷ xs) more zero e = e
  get-append (p ∷ xs) more (suc i) e = get-append xs more i e

  pub get-append_length : (xs : List A) (o : A) → get_elem? (xs ++ (o ∷ [])) (length xs) ≡ some o
  get-append_length [] o = refl
  get-append_length (p ∷ xs) o = get-append_length xs o

-- Every item of a list satisfies `Holds`.
abbrev pub All {ℓ κ} : {Item : Type ℓ} → (Item → Type κ) → List Item → Type κ
All Holds (item ∷ items) = Holds item × All Holds items
All Holds [] = Unit

module _ {ℓ κ} {Item : Type ℓ} (Holds : Item → Type κ) where
  pub All-append :
      (front back : List Item) → All Holds front → All Holds back → All Holds (front ++ back)
  All-append (item ∷ front) back (first, rest) ends = (first, All-append front back rest ends)
  All-append [] back holds ends = ends

module _ {ℓ κ} {A : Type ℓ} where
  pub All-remove : (P : A → Type κ) (i : ℕ) (xs : List A) → All P xs → All P (remove i xs)
  All-remove P i [] h = h
  All-remove P zero (c ∷ xs) h = h.1
  All-remove P (suc i) (c ∷ xs) h = (h.0, All-remove P i xs h.1)

  pub All-get :
      (P : A → Type κ) (i : ℕ) (xs : List A) {c : A} → All P xs → get_elem? xs i ≡ some c → P c
  All-get P i [] h e = cc
  All-get P zero (d ∷ xs) {c} h e = let eq : d ≡ c = cc in subst P eq h.0
  All-get P (suc i) (d ∷ xs) h e = All-get P i xs h.1 e

abbrev pub replicate {ℓ} : {A : Type ℓ} → ℕ → A → List A
replicate zero a = []
replicate (suc n) a = a ∷ replicate n a
