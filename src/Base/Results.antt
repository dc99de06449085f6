-- ===== src/Base/Results.antt =====
-- Rust's `Result`, with `?` as the bind of a `do` block.
use mathlib.Core.List.{List, [], ◌∷◌}
use mathlib.Core.Logic.{◌⊎◌, inl, inr}
use mathlib.Core.Option.{Option, none, some}
use mathlib.Core.Path.{◌≡◌, refl}

-- `Ok` and `Err`.
pub data Result {ε τ} (Err : Type ε) (T : Type τ) : Type (ε ⊔ τ) where
  ok : T → Result Err T
  err : Err → Result Err T

module _ {ε τ} {Err : Type ε} {T : Type τ} where
  abbrev pub IsOk : Result Err T → Type 0
  IsOk (err reason) = ⊥
  IsOk (ok value) = Unit

  -- `Option::ok_or`
  abbrev pub ok_or : Err → Option T → Result Err T
  ok_or reason (some value) = ok value
  ok_or reason none = err reason

  -- To split on a computed result and keep the equation.
  pub Result-cases :
      (r : Result Err T) → ((value : T) × (r ≡ ok value)) ⊎ ((reason : Err) × (r ≡ err reason))
  Result-cases (err reason) = inr (reason, refl)
  Result-cases (ok value) = inl (value, refl)

  pub ok-injective : (x y : T) → ◌≡◌ {A = Result Err T} (ok x) (ok y) → x ≡ y
  ok-injective x y same = cc

  pub err-ne-ok : (reason : Err) (x : T) → ¬ (◌≡◌ {A = Result Err T} (err reason) (ok x))
  err-ne-ok reason x same = cc

-- `Result::map_err`
abbrev pub map_err {ε φ τ} :
    {Err : Type ε} {Err' : Type φ} {T : Type τ} → (Err → Err') → Result Err T → Result Err' T
map_err change (err reason) = err (change reason)
map_err change (ok value) = ok value

module _ {ε τ υ} {Err : Type ε} {T : Type τ} {T' : Type υ} where
  -- `Result::and_then`
  infixl 5 ◌>>=◌ ◌>>◌
  abbrev pub ◌>>=◌ : Result Err T → (T → Result Err T') → Result Err T'
  err reason >>= then = err reason
  ok value >>= then = then value

  abbrev pub ◌>>◌ : Result Err T → Result Err T' → Result Err T'
  first >> second = first >>= λ unused. second

  -- Inversion of a successful bind.
  pub >>=-eq-ok :
      (r : Result Err T) (then : T → Result Err T') {final : T'}
      → (r >>= then) ≡ ok final
      → (value : T) × (r ≡ ok value) × (then value ≡ ok final)
  >>=-eq-ok (err reason) then success = cc
  >>=-eq-ok (ok value) then success = (value, refl, success)

module _ {ε τ υ} {Err : Type ε} {T : Type τ} {T' : Type υ} (check : T → Result Err T') where
  -- `Option::map`, then `transpose`.
  abbrev pub traverse_option : Option T → Result Err (Option T')
  traverse_option (some value) = check value >>= λ checked. ok (some checked)
  traverse_option none = ok none

  -- `collect::<Result<Vec<_>, _>>()`, which stops at the first error.
  abbrev pub collect : List T → Result Err (List T')
  collect [] = ok []
  collect (value ∷ values) =
      check value >>= λ checked. collect values >>= λ rest. ok (checked ∷ rest)
