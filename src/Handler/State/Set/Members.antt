-- ===== src/Handler/State/Set/Members.antt =====
-- The calls of the handle of a set from Ruby, and what they are to do where the set is a predicate on
-- strings. The order of the members, which only scans see, is forgotten.
use mathlib.Core.List.{map}
use prosody_rb.Base.{str_eq, String, Bool, true, false, List, if◌then◌else◌}
use prosody_rb.Ruby.Effects.{M, ◌>>=◌, pure}
use prosody_rb.Ruby.Vm.{Vm}
use prosody_rb.Handler.State.Handles.Laws.{does, Does}
use prosody_rb.Handler.State.Set.{
  SetState, set_contains, set_contains_many, set_insert, set_remove, set_clear,
}

pub data Call : Type 0 where
  contains insert remove : String → Call
  contains_many : List String → Call
  clear : Call

pub data Reply : Type 0 where
  flag : Bool → Reply
  flags : List Bool → Reply
  nothing : Reply

abbrev pub Members : Type 0
Members = String → Bool

-- A question to the members, which stay, and a change of them.
abbrev pub asked : {A : Type 0} → (Members → A) → Members → A × Members
asked f m = (f m, m)

abbrev pub changed : (Members → Members) → Members → Unit {0} × Members
changed f m = (tt, f m)

-- Membership of one string alone becomes `b`.
abbrev pub put : String → Bool → Members → Members
put member b m k = if str_eq k member then b else m k

-- The laws of a core whose set is `view w`.
pub record IsSetOf {W : Type 0} (view : W → Members) (core : SetState W) : Type 0 where
  pub contains_law : (k : String) → Does view (core.wait_contains k) (asked (λ m. m k))
  pub contains_many_law :
      (ks : List String) → Does view (core.wait_contains_many ks) (asked (λ m. map m ks))
  pub insert_law : (k : String) → Does view (core.wait_insert k) (changed (put k true))
  pub remove_law : (k : String) → Does view (core.wait_remove k) (changed (put k false))
  pub clear_law : Does view core.wait_clear (changed (λ m. λ k. false))

abbrev pub members_call : Call → M Members Reply
members_call (contains k) = does (asked (λ m. m k)) >>= λ b. pure (flag b)
members_call (contains_many ks) = does (asked (λ m. map m ks)) >>= λ bs. pure (flags bs)
members_call (insert k) = does (changed (put k true)) >>= λ _. pure nothing
members_call (remove k) = does (changed (put k false)) >>= λ _. pure nothing
members_call clear = does (changed (λ m. λ k. false)) >>= λ _. pure nothing

module _ {W : Type 0} (vm : Vm W) (core : SetState W) where
  -- The method that Ruby calls.
  unfoldable pub set_call : Call → M W Reply
  unfolding set_contains set_contains_many set_insert set_remove set_clear
  set_call (contains k) = set_contains vm core k >>= λ b. pure (flag b)
  set_call (contains_many ks) = set_contains_many vm core ks >>= λ bs. pure (flags bs)
  set_call (insert k) = set_insert vm core k >>= λ _. pure nothing
  set_call (remove k) = set_remove vm core k >>= λ _. pure nothing
  set_call clear = set_clear vm core >>= λ _. pure nothing
