-- ===== src/Handler/State/Set/Tests.antt =====
-- A set handle over a core that keeps a predicate.
use mathlib.Core.List.{map}
use prosody_rb.Base.{◌≡◌, refl, true, false, none, List, [], ◌∷◌, Result, ok}
use prosody_rb.Ruby.Effects.{M, pure}
use prosody_rb.Ruby.Effects.Refines.{session}
use prosody_rb.Ruby.Vm.Sample.{sample}
use prosody_rb.Ruby.Vm.{Vm, Carrier, extract_opentelemetry_context}
use prosody_rb.Handler.State.Handles.{ErasedStateError, applied}
use prosody_rb.Handler.State.Handles.Laws.{does, Traces, Does}
use prosody_rb.Handler.State.Set.{SetState}
use prosody_rb.Handler.State.Set.Members.{
  Call, contains, contains_many, insert, remove, flag, flags, nothing, Members, asked, changed, put,
  IsSetOf, members_call, set_call,
}
use prosody_rb.Handler.State.Set.Refines.{set_call-Refines-members}

abbrev vm : Vm Members
vm = sample (λ w. 0)

abbrev view : Members → Members
view w = w

abbrev reply :
    {A : Type 0} → (Members → A × Members) → Carrier → M Members (Result ErasedStateError A)
reply f context = does (λ w. (ok (f w).0, (f w).1))

abbrev core : SetState Members
core = record {
  wait_contains = λ k. reply (asked (λ m. m k));
  wait_contains_many = λ ks. reply (asked (λ m. map m ks));
  wait_is_empty = λ context. pure (ok false);
  wait_insert = λ k. reply (changed (put k true));
  wait_remove = λ k. reply (changed (put k false));
  wait_clear = reply (changed (λ m. λ k. false));
  stream_keys = λ query. record {
    wait_next_ready_chunk = λ n. λ context. pure (ok none);
    wait_close = pure tt;
  };
  wait_commit = λ context. pure (ok applied);
  wait_rollback = λ context. pure applied;
}

abbrev at_once : {A : Type 0} (f : Members → A × Members) → Does view (reply f) f
at_once f = record { runs = λ context. λ w. ((f w).1, refl, refl) }

abbrev core_laws : IsSetOf view core
core_laws = record {
  contains_law = λ k. at_once _;
  contains_many_law = λ ks. at_once _;
  insert_law = λ k. at_once _;
  remove_law = λ k. at_once _;
  clear_law = at_once _;
}

vm_Traces : Traces view vm
unfolding extract_opentelemetry_context
vm_Traces w = ([], w, refl, refl)

abbrev nobody : Members
nobody k = false

abbrev calls : List Call
calls = insert "a" ∷ insert "b" ∷ remove "a" ∷ contains_many ("a" ∷ "b" ∷ []) ∷ contains "a" ∷ []

set_call-Refines-members_example :
    let r = session (set_call vm core) calls nobody in
    let s = session members_call calls nobody in (r.0 ≡ s.0) × (r.1 ≡ s.1)
set_call-Refines-members_example =
    set_call-Refines-members vm core view core_laws vm_Traces calls nobody

members_calls :
    (session members_call calls nobody).0
    ≡ ok nothing ∷ ok nothing ∷ ok nothing ∷ ok (flags (false ∷ true ∷ [])) ∷ ok (flag false) ∷ []
members_calls = refl
