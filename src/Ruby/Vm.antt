-- ===== src/Ruby/Vm.antt =====
-- The methods of Ruby and of the `magnus` crate that the extension calls, as parameters, and the
-- code that only calls them: ext/prosody/src/tracing_util.rs.
pub mod Sample
use prosody_rb.Base.{ℕ, String, List, [], ◌∷◌}
use prosody_rb.Ruby.{Value}
use prosody_rb.Ruby.Effects.{M, ◌>>=◌, ◌>>◌}

pub record Vm (W : Type 0) : Type 0 where
  -- The module `Prosody`, and Ruby's class `Module`.
  pub root_module : Value
  pub class_module : Value
  pub hash_new : M W Value
  pub const_get : Value → String → M W Value
  pub funcall : Value → String → List Value → M W Value
  pub new_instance : Value → List Value → M W Value
  pub to_hash_map : Value → M W (List (String × String))
  -- `RHash::aset`, with a string for a key.
  pub aset : Value → String → Value → M W (Unit {0})
  -- The `kwargs!` macro, with one key.
  pub keyword : String → Value → Value
  -- `std::process::id`
  pub process_id : W → ℕ

-- What the propagator extracts a context from.
abbrev pub Carrier : Type 0
Carrier = List (String × String)

unfoldable pub extract_opentelemetry_context : {W : Type 0} → Vm W → M W Carrier
extract_opentelemetry_context vm = do
  carrier ← vm.hash_new
  otel_class ← vm.const_get vm.class_module "OpenTelemetry"
  propagator ← vm.funcall otel_class "propagation" []
  vm.funcall propagator "inject" (carrier ∷ [])
  vm.to_hash_map carrier
