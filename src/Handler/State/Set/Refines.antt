-- ===== src/Handler/State/Set/Refines.antt =====
-- The handle of a set, over a core whose set is a predicate on strings, is that predicate.
use prosody_rb.Base.{◌≡◌, List}
use prosody_rb.Ruby.Effects.Refines.{Refines, session, session-Refines}
use prosody_rb.Ruby.Vm.{Vm}
use prosody_rb.Handler.State.Handles.Laws.{Traces, answered-Refines}
use prosody_rb.Handler.State.Set.{
  SetState, set_contains, set_contains_many, set_insert, set_remove, set_clear,
}
use prosody_rb.Handler.State.Set.Members.{
  Call, contains, contains_many, insert, remove, clear, flag, flags, nothing, Members, IsSetOf,
  members_call, set_call,
}

module _ {W : Type 0} (vm : Vm W) (core : SetState W) (view : W → Members)
    (laws : IsSetOf view core) (traces : Traces view vm) where
  set_call-Refines : (c : Call) → Refines view (set_call vm core c) (members_call c)
  unfolding set_call set_contains set_contains_many set_insert set_remove set_clear
  set_call-Refines (contains k) = answered-Refines view vm traces flag (laws.contains_law k)
  set_call-Refines (contains_many ks) =
      answered-Refines view vm traces flags (laws.contains_many_law ks)
  set_call-Refines (insert k) = answered-Refines view vm traces (λ _. nothing) (laws.insert_law k)
  set_call-Refines (remove k) = answered-Refines view vm traces (λ _. nothing) (laws.remove_law k)
  set_call-Refines clear = answered-Refines view vm traces (λ _. nothing) laws.clear_law

  -- Let the core's set be a predicate on strings, which its operations ask and change, each with
  -- success, and let the tracing context be extracted without a change of it. Then Ruby's calls of a
  -- set handle, in any number and order, answer what the same calls answer on that predicate, several
  -- members at once like each member alone, and the predicate that is left is the same too.
  pub set_call-Refines-members :
      (calls : List Call) (w : W)
      → let r = session (set_call vm core) calls w in
        let s = session members_call calls (view w) in (r.0 ≡ s.0) × (view r.1 ≡ s.1)
  set_call-Refines-members = session-Refines view (set_call vm core) members_call set_call-Refines
