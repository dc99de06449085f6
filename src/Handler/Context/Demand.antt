-- ===== src/Handler/Context/Demand.antt =====
-- The methods `demand`, `should_cancel` and `on_cancel` of `Context` in
-- ext/prosody/src/handler/context/mod.rs.
use prosody_rb.Base.{ℕ, String, Bool, pos, [], ◌∷◌}
use prosody_rb.Ruby.{Value, integer}
use prosody_rb.Ruby.Effects.{M, ◌>>=◌}
use prosody_rb.Ruby.Vm.{Vm}

-- `DemandType` of the core.
pub data DemandType : Type 0 where
  normal : DemandType
  failure : ℕ → DemandType

abbrev pub demand_parts : DemandType → String × ℕ
demand_parts normal = ("normal", 0)
demand_parts (failure retries) = ("failure", retries)

module _ {W : Type 0} (vm : Vm W) (to_symbol : String → Value) where
  unfoldable pub context_demand : DemandType → M W Value
  context_demand demand =
      let (kind, retries) = demand_parts demand in
      vm.const_get vm.root_module "Demand" >>= λ class.
      vm.funcall class "new" (to_symbol kind ∷ integer (pos retries) ∷ [])

-- The core's two operations are parameters.
module _ {W : Type 0} (core_should_cancel : W → Bool) (wait_on_cancel : M W (Unit {0})) where
  unfoldable pub context_should_cancel : W → Bool
  context_should_cancel = core_should_cancel

  unfoldable pub context_on_cancel : M W (Unit {0})
  context_on_cancel = wait_on_cancel
