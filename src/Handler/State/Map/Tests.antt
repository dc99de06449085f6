-- ===== src/Handler/State/Map/Tests.antt =====
-- A map handle over a core that keeps a function of values.
use mathlib.Core.List.{map}
use prosody_rb.Base.{
  ◌≢◌, String, ◌≡◌, refl, true, false, Option, none, some, List, [], ◌∷◌, Result, ok, err,
}
use prosody_rb.Ruby.{Value, nil, string, Error, new, transient_state_error}
use prosody_rb.Ruby.Effects.{M, pure, lift}
use prosody_rb.Ruby.Effects.Refines.{session}
use prosody_rb.Ruby.Vm.Sample.{sample}
use prosody_rb.Ruby.Vm.{Vm, Carrier, extract_opentelemetry_context}
use prosody_rb.Handler.State.Handles.{ErasedStateError, applied}
use prosody_rb.Handler.State.Handles.Laws.{does, Traces, Does}
use prosody_rb.Handler.State.Cursor.{StateCursor}
use prosody_rb.Handler.State.Map.{MapState}
use prosody_rb.Handler.State.Map.Entries.{
  Call, contains_many, get_many, remove, set, values, flags, nothing, Entries, looked, changed,
  is_present, insert, erase, empty, IsMap, entries_call, map_call,
}
use prosody_rb.Handler.State.Map.Refines.{map_call-Refines-entries}

abbrev W : Type 0
W = Entries Value

abbrev vm : Vm W
vm = sample (λ w. 0)

abbrev view : W → Entries Value
view w = w

-- A core operation on the function itself.
abbrev reply : {A : Type 0} → (W → A × W) → Carrier → M W (Result ErasedStateError A)
reply f context = does (λ w. (ok (f w).0, (f w).1))

abbrev ended : {A : Type 0} → StateCursor W A
ended = record { wait_next_ready_chunk = λ n. λ context. pure (ok none); wait_close = pure tt }

abbrev core : MapState W Value
core = record {
  wait_get = λ k. reply (looked (λ m. m k));
  wait_contains_key = λ k. reply (looked (λ m. is_present (m k)));
  wait_is_empty = λ context. pure (ok false);
  wait_get_many = λ ks. reply (looked (λ m. map m ks));
  wait_contains_many = λ ks. reply (looked (λ m. map (λ k. is_present (m k)) ks));
  wait_set = λ k. λ item. reply (changed (insert k item));
  wait_remove = λ k. reply (changed (erase k));
  wait_clear = reply (changed empty);
  stream_entries = λ query. ended;
  stream_keys = λ query. ended;
  wait_commit = λ context. pure (ok applied);
  wait_rollback = λ context. pure applied;
}

abbrev at_once : {A : Type 0} (f : W → A × W) → Does view (reply f) f
at_once f = record { runs = λ context. λ w. ((f w).1, refl, refl) }

-- Strings convert, and nothing else does.
abbrev convert : Value → Result Error Value
convert (string s) = ok (string s)
convert _ = err (new transient_state_error [])

-- A core that takes everything but `nil`.
abbrev IsPresent : Value → Type 0
IsPresent v = v ≢ nil

string_is_storable : (s : String) (item : Value) → convert (string s) ≡ ok item → item ≢ nil
string_is_storable s item e n = cc

nil_is_refused : (item : Value) → convert nil ≡ ok item → item ≢ nil
nil_is_refused item e = cc

abbrev core_laws : IsMap IsPresent view core
core_laws = record {
  get_law = λ k. at_once _;
  contains_key_law = λ k. at_once _;
  get_many_law = λ ks. at_once _;
  contains_many_law = λ ks. at_once _;
  set_law = λ k. λ item. λ h. at_once _;
  remove_law = λ k. at_once _;
  clear_law = at_once _;
}

abbrev show : Option Value → Value
show none = nil
show (some v) = v

abbrev calls : List Call
calls =
    set "a" (string "1")
    ∷ set "b" (string "2")
    ∷ set "a" nil
    ∷ get_many ("b" ∷ "c" ∷ "a" ∷ [])
    ∷ remove "a"
    ∷ contains_many ("a" ∷ "b" ∷ [])
    ∷ []

abbrev vm_Traces : Traces view vm
unfolding extract_opentelemetry_context
vm_Traces w = ([], w, refl, refl)

abbrev no_entries : W
no_entries k = none

map_call-Refines-entries_example :
    let r =
      session (map_call vm core (λ v. lift (convert v)) (λ o. pure (show o))) calls no_entries in
    let s = session (entries_call convert show) calls no_entries in (r.0 ≡ s.0) × (r.1 ≡ s.1)
map_call-Refines-entries_example =
    map_call-Refines-entries vm core (λ v. lift (convert v)) (λ o. pure (show o)) view convert show
      IsPresent core_laws vm_Traces (λ v. λ w. (w, refl, refl)) (λ item. λ w. (w, refl, refl)) calls
      no_entries
      (string_is_storable "1", (string_is_storable "2", (nil_is_refused, (tt, (tt, (tt, tt))))))

entries_calls :
    (session (entries_call convert show) calls no_entries).0
    ≡ ok nothing
      ∷ ok nothing
      ∷ err (new transient_state_error [])
      ∷ ok (values (string "2" ∷ nil ∷ string "1" ∷ []))
      ∷ ok nothing
      ∷ ok (flags (false ∷ true ∷ []))
      ∷ []
entries_calls = refl
