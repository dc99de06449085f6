-- ===== src/Classes.antt =====
-- How the extension defines its Ruby classes: the calls of `magnus` that do so, as parameters, and
-- `wrapped_class` of ext/prosody/src/handler/state/mod.rs. A Rust function that a method calls is
-- named by its path, with the number of arguments that Ruby checks, -1 for any.
pub mod State
pub mod Native
pub mod Init
pub mod Surface
pub mod Trim
mod Tests
use Prim.Native.String.{len, slice}
use text.Mathlib.Text.{starts_with}
use prosody_rb.Base.{ℕ, zero, suc, ℤ, String, List, [], ◌∷◌, if◌then◌else◌}
use prosody_rb.Ruby.{Value}
use prosody_rb.Ruby.Effects.{M, ◌>>=◌, ◌>>◌, pure}

-- The `method!` and `function!` macros, with the name that Ruby gets.
pub record Method : Type 0 where
  pub name : String
  pub function : String
  pub arity : ℤ

abbrev pub method : String → String → ℤ → Method
method name function arity = record { name = name; function = function; arity = arity }

-- Classes are defined in the module `Prosody`, under `Object`.
pub record Definer (W : Type 0) : Type 0 where
  pub define_class : String → M W Value
  pub define_method : Value → Method → M W (Unit {0})
  pub define_singleton_method : Value → Method → M W (Unit {0})
  pub define_module_function : Method → M W (Unit {0})
  -- `Kernel#at_exit`, with a block.
  pub at_exit : M W Value

module _ {W : Type 0} where
  -- A row of statements that each end in `?`.
  abbrev pub each_of : {A : Type 0} → (A → M W (Unit {0})) → List A → M W (Unit {0})
  each_of f [] = pure tt
  each_of f (a ∷ l) = f a >> each_of f l

  abbrev pub define_methods : Definer W → Value → List Method → M W (Unit {0})
  define_methods rb class = each_of (rb.define_method class)

-- Rust's `str::trim_start_matches`: the prefix is removed as long as it is there, at most `fuel`
-- times.
unfoldable pub trim_from : ℕ → String → String → String
trim_from zero text prefix = text
trim_from (suc fuel) text prefix =
    let shorter = trim_from fuel (slice text (len prefix) (len text)) prefix in
    if starts_with text prefix then shorter else text

abbrev pub trim_start_matches : String → String → String
trim_start_matches text = trim_from (len text) text

unfoldable pub wrapped_class : {W : Type 0} → Definer W → String → M W Value
unfolding trim_from
wrapped_class rb path = rb.define_class (trim_start_matches path "Prosody::")
