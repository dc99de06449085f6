-- ===== src/Classes/Tests.antt =====
-- A Ruby whose only state is what was defined, and one that runs out of room.
use prosody_rb.Base.{String, true, ◌≡◌, refl, ok, err, List, [], ◌∷◌, ◌++◌}
use prosody_rb.Ruby.{Value, nil, string, new, runtime_error}
use prosody_rb.Ruby.Effects.{M}
use prosody_rb.Classes.{Definer}
use prosody_rb.Classes.State.{register_scan}
use prosody_rb.Classes.Init.{init}
use prosody_rb.Classes.Surface.{
  Definition, objects_of, class_itself, root, a_class, a_method, an_exit_hook, surface,
}
use prosody_rb.Classes.Surface.Laws.{IsDefiner}
use prosody_rb.Classes.Surface.Calls.{is_accepted, stands, all_of, library_calls}
use prosody_rb.Classes.Surface.Served.{init-serves}

abbrev named : Value → String
named (string name) = name
named _ = ""

abbrev adding : {A : Type 0} → A → Definition → M (List Definition) A
adding a d log = (ok a, log ++ (d ∷ []))

abbrev sample : Definer (List Definition)
sample = record {
  define_class = λ name. adding (string name) (a_class name);
  define_method = λ c. λ m. adding tt (a_method (objects_of (named c)) m);
  define_singleton_method = λ c. λ m. adding tt (a_method (class_itself (named c)) m);
  define_module_function = λ m. adding tt (a_method root m);
  at_exit = adding nil an_exit_hook;
}

sample-IsDefiner : IsDefiner (λ log. log) named sample
sample-IsDefiner = record {
  class_law = λ name. record { ends = λ w. (refl, refl) };
  method_law = λ c. λ m. record { ends = λ w. (refl, tt) };
  singleton_law = λ c. λ m. record { ends = λ w. (refl, tt) };
  function_law = λ m. record { ends = λ w. (refl, tt) };
  hook_law = record { ends = λ w. (refl, tt) };
}

init_runs : init sample [] ≡ (ok tt, surface)
unfolding init
init_runs = refl

-- The second method of a scan cannot be defined.
abbrev adding_first : Definition → M (List Definition) (Unit {0})
adding_first d (a ∷ []) = adding tt d (a ∷ [])
adding_first d log = (err (new runtime_error []), log)

abbrev full : Definer (List Definition)
full = record sample { define_method = λ c. λ m. adding_first (a_method (objects_of (named c)) m) }

register_scan_stops : (register_scan full "NativeMapKeyScan" []).0 ≡ err (new runtime_error [])
unfolding register_scan
register_scan_stops = refl

init-serves_example :
    (all_of (is_accepted surface) library_calls ≡ true) × (all_of (stands surface) surface ≡ true)
init-serves_example = init-serves (λ log. log) named sample sample-IsDefiner [] surface init_runs
