-- ===== src/Classes/Trim.antt =====
-- The class that the path of a wrapped Rust type names.
use Prim.Native.String.{len}
use Prim.Native.Nat.{zero, suc, ◌+◌}
use text.Mathlib.Text.{starts_with}
use text.Mathlib.TextPositions.{starts_with-append, slice-append_right, len-append}
use prosody_rb.Base.{ℕ, String, ◌<>◌, false, ◌≡◌, refl, ap, ◌∙◌, arith}
use prosody_rb.Classes.{Definer, trim_from, wrapped_class}

trim_from-kept :
    (fuel : ℕ) (text prefix : String)
    → starts_with text prefix ≡ false
    → trim_from fuel text prefix ≡ text
unfolding trim_from
trim_from-kept zero text prefix e = refl
trim_from-kept (suc fuel) text prefix e = rw (e) refl

trim_from-prefix :
    (fuel : ℕ) (prefix name : String)
    → starts_with name prefix ≡ false
    → trim_from (suc fuel) (prefix <> name) prefix ≡ name
unfolding trim_from
trim_from-prefix fuel prefix name e =
    rw (starts_with-append prefix name, len-append prefix name, slice-append_right prefix name)
      (trim_from-kept fuel name prefix e)

-- A path in the module names the class after the module's prefix.
pub wrapped_class-path :
    {W : Type 0} (rb : Definer W) (name : String)
    → starts_with name "Prosody::" ≡ false
    → wrapped_class rb ("Prosody::" <> name) ≡ rb.define_class name
unfolding wrapped_class
wrapped_class-path rb name e =
    let long : len "Prosody::" + len name ≡ suc (8 + len name) = omega arith in
    ap rb.define_class (
      ap (λ n. trim_from n ("Prosody::" <> name) "Prosody::") (len-append "Prosody::" name ∙ long)
      ∙ trim_from-prefix (8 + len name) "Prosody::" name e)
