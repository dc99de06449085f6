-- ===== src/Client/Config/Fields.antt =====
-- The pattern of every conversion: an option that is given is converted and set on the builder, an
-- option that is absent is left alone, and the first bad value ends the conversion.
use prosody_rb.Base.{
  ◌≡◌, refl, ◌↔◌, String, true, Option, none, some, List, [], ◌∷◌, Result, ok, err, ◌>>=◌, map_err,
  is_some, All, IsOk, ok_or,
}
use prosody_rb.Ruby.{Message, lit}
use prosody_rb.Util.Seconds.{Floats, seconds, not_seconds}

-- One `if let Some(value) = &config.option { builder.setter(…) }`: absent, or the setting or error
-- that it makes.
abbrev pub Field : Type 0 → Type 0
Field S = Option (Result Message S)

-- A value that is set as it is.
abbrev pub plain : {A S : Type 0} → Option A → (A → S) → Field S
plain none f = none
plain (some a) f = some (ok (f a))

-- A value that is checked or parsed first.
abbrev pub checked : {A S : Type 0} → Option A → (A → Result Message S) → Field S
checked none f = none
checked (some a) f = some (f a)

-- A number of seconds.
abbrev pub timed : (fl : Floats) {S : Type 0} → String → Option fl.F64 → (fl.Duration → S) → Field S
timed fl option none f = none
timed fl option (some x) f = some (seconds fl option x >>= λ d. ok (f d))

-- An error `e` of a parser under its option: `format!("option: {e}")`.
abbrev pub under : {A : Type 0} → String → Result String A → Result Message A
under option r = map_err (λ e. lit option ∷ lit ": " ∷ lit e ∷ []) r

-- The body of a conversion, setter by setter.
unfoldable pub apply_fields : {S : Type 0} → List (Field S) → Result Message (List S)
apply_fields [] = ok []
apply_fields (none ∷ fields) = apply_fields fields
apply_fields (some r ∷ fields) = r >>= λ s. apply_fields fields >>= λ settings. ok (s ∷ settings)

abbrev pub IsGood : {S : Type 0} → Field S → Type 0
IsGood none = Unit
IsGood (some r) = IsOk r

bind-IsOk : {E A B : Type 0} (r : Result E A) (f : A → B) → IsOk (r >>= λ a. ok (f a)) ↔ IsOk r
bind-IsOk (ok a) f = (λ h. tt, λ h. tt)
bind-IsOk (err e) f = (λ h. h, λ h. h)

ok_or-IsOk : {E A : Type 0} (e : E) (o : Option A) → IsOk (ok_or e o) ↔ (is_some o ≡ true)
ok_or-IsOk e none = (λ h. absurd h, λ h. cc)
ok_or-IsOk e (some a) = (λ h. refl, λ h. tt)

pub apply_fields-IsOk :
    {S : Type 0} (fields : List (Field S)) → IsOk (apply_fields fields) ↔ All IsGood fields
unfolding apply_fields
apply_fields-IsOk [] = (λ h. tt, λ h. tt)
apply_fields-IsOk (none ∷ fields) =
    (λ h. (tt, (apply_fields-IsOk fields).0 h), λ h. (apply_fields-IsOk fields).1 h.1)
apply_fields-IsOk (some (err e) ∷ fields) = (λ h. (h, absurd h), λ h. h.0)
apply_fields-IsOk (some (ok s) ∷ fields) =
    let rest = apply_fields-IsOk fields in
    let bound = bind-IsOk (apply_fields fields) (λ settings. s ∷ settings) in
    (λ h. (tt, rest.0 (bound.0 h)), λ h. bound.1 (rest.1 h.1))

-- A number of seconds is good when it is absent or the standard library accepts it.
abbrev pub IsDuration : (fl : Floats) → Option fl.F64 → Type 0
IsDuration fl none = Unit
IsDuration fl (some x) = is_some (fl.try_from_secs_f64 x) ≡ true

pub timed-IsGood :
    (fl : Floats) {S : Type 0} (option : String) (v : Option fl.F64) (f : fl.Duration → S)
    → IsGood (timed fl option v f) ↔ IsDuration fl v
unfolding seconds
timed-IsGood fl option none f = (λ h. tt, λ h. tt)
timed-IsGood fl option (some x) f =
    let bound = bind-IsOk (seconds fl option x) f in
    let some_duration = ok_or-IsOk (not_seconds option) (fl.try_from_secs_f64 x) in
    (λ h. some_duration.0 (bound.0 h), λ h. bound.1 (some_duration.1 h))
