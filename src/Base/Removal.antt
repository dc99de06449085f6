-- ===== src/Base/Removal.antt =====
-- Lists without one of their items.
use mathlib.Core.List.Perm
use mathlib.Core.List.{Perm}
use prosody_rb.Base.{
  ℕ, zero, suc, ◌≡◌, refl, ap, subst, some, List, [], ◌∷◌, length, get_elem?, remove,
}

pub get-remove-perm :
    {A : Type 0} (xs : List A) (i : ℕ) {t : A} → get_elem? xs i ≡ some t → Perm xs (t ∷ remove i xs)
get-remove-perm [] i e = cc
get-remove-perm (x ∷ xs) zero {t} e =
    let same : x ≡ t = cc in subst (λ y. Perm (x ∷ xs) (y ∷ xs)) same Perm.rfl
get-remove-perm (x ∷ xs) (suc i) {t} e =
    Perm.trans (Perm.cons x (get-remove-perm xs i e)) (Perm.swap t x (remove i xs))

pub length-remove :
    {A : Type 0} (xs : List A) (i : ℕ) {a : A}
    → get_elem? xs i ≡ some a
    → length xs ≡ suc (length (remove i xs))
length-remove [] i e = cc
length-remove (x ∷ xs) zero e = refl
length-remove (x ∷ xs) (suc i) e = ap suc (length-remove xs i e)
