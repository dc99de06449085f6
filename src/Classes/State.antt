-- ===== src/Classes/State.antt =====
-- The classes of keyed state: `register` in ext/prosody/src/handler/state/mod.rs, deque.rs, set.rs,
-- scan.rs and registration.rs. A macro's `register` takes the name of its class.
use prosody_rb.Base.{String, pos, ◌<>◌, List, [], ◌∷◌}
use prosody_rb.Ruby.Effects.{M, ◌>>=◌, ◌>>◌}
use prosody_rb.Classes.{Method, method, Definer, define_methods, wrapped_class}

-- The methods of each class, of which the functions are in `class`.
abbrev pub value_methods : String → List Method
value_methods class =
    method "get" (class <> "::get") (pos 0)
    ∷ method "set" (class <> "::set") (pos 1)
    ∷ method "clear" (class <> "::clear") (pos 0)
    ∷ method "commit" (class <> "::commit") (pos 0)
    ∷ method "rollback" (class <> "::rollback") (pos 0)
    ∷ []

abbrev pub map_methods : String → List Method
map_methods class =
    method "get" (class <> "::get") (pos 1)
    ∷ method "contains_key" (class <> "::contains_key") (pos 1)
    ∷ method "is_empty" (class <> "::is_empty") (pos 0)
    ∷ method "get_many" (class <> "::get_many") (pos 1)
    ∷ method "contains_many" (class <> "::contains_many") (pos 1)
    ∷ method "set" (class <> "::set") (pos 2)
    ∷ method "remove" (class <> "::remove") (pos 1)
    ∷ method "clear" (class <> "::clear") (pos 0)
    ∷ method "scan" (class <> "::scan") (pos 2)
    ∷ method "keys" (class <> "::keys") (pos 2)
    ∷ method "commit" (class <> "::commit") (pos 0)
    ∷ method "rollback" (class <> "::rollback") (pos 0)
    ∷ []

abbrev pub set_methods : List Method
set_methods =
    method "contains" "NativeSetState::contains" (pos 1)
    ∷ method "contains_many" "NativeSetState::contains_many" (pos 1)
    ∷ method "is_empty" "NativeSetState::is_empty" (pos 0)
    ∷ method "insert" "NativeSetState::insert" (pos 1)
    ∷ method "remove" "NativeSetState::remove" (pos 1)
    ∷ method "clear" "NativeSetState::clear" (pos 0)
    ∷ method "keys" "NativeSetState::keys" (pos 2)
    ∷ method "commit" "NativeSetState::commit" (pos 0)
    ∷ method "rollback" "NativeSetState::rollback" (pos 0)
    ∷ []

abbrev pub deque_methods : String → List Method
deque_methods class =
    method "len" (class <> "::len") (pos 0)
    ∷ method "is_empty" (class <> "::is_empty") (pos 0)
    ∷ method "get" (class <> "::get") (pos 1)
    ∷ method "peek_front" (class <> "::peek_front") (pos 0)
    ∷ method "peek_back" (class <> "::peek_back") (pos 0)
    ∷ method "push_back" (class <> "::push_back") (pos 1)
    ∷ method "push_front" (class <> "::push_front") (pos 1)
    ∷ method "pop_front" (class <> "::pop_front") (pos 0)
    ∷ method "pop_back" (class <> "::pop_back") (pos 0)
    ∷ method "clear" (class <> "::clear") (pos 0)
    ∷ method "scan" (class <> "::scan") (pos 2)
    ∷ method "commit" (class <> "::commit") (pos 0)
    ∷ method "rollback" (class <> "::rollback") (pos 0)
    ∷ []

abbrev pub scan_methods : String → List Method
scan_methods class =
    method "next_chunk" (class <> "::next_chunk") (pos 0)
    ∷ method "close" (class <> "::close") (pos 0)
    ∷ []

module _ {W : Type 0} (rb : Definer W) where
  unfoldable pub register_value : String → M W (Unit {0})
  unfolding wrapped_class
  register_value name = do
    class ← wrapped_class rb ("Prosody::" <> name)
    define_methods rb class (value_methods name)

  unfoldable pub register_map : String → M W (Unit {0})
  unfolding wrapped_class
  register_map name = do
    class ← wrapped_class rb ("Prosody::" <> name)
    define_methods rb class (map_methods name)

  unfoldable pub register_set : M W (Unit {0})
  unfolding wrapped_class
  register_set = do
    class ← wrapped_class rb "Prosody::NativeSetState"
    define_methods rb class set_methods

  unfoldable pub register_deque : String → M W (Unit {0})
  unfolding wrapped_class
  register_deque name = do
    class ← wrapped_class rb ("Prosody::" <> name)
    define_methods rb class (deque_methods name)

  unfoldable pub register_scan : String → M W (Unit {0})
  unfolding wrapped_class
  register_scan name = do
    class ← wrapped_class rb ("Prosody::" <> name)
    define_methods rb class (scan_methods name)

  -- `registration::register`
  unfoldable pub register : M W (Unit {0})
  unfolding register_value register_map register_set register_deque register_scan
  register = do
    register_value "NativeJsonValueState"
    register_value "NativeMessageValueState"
    register_map "NativeJsonMapState"
    register_map "NativeMessageMapState"
    register_set
    register_deque "NativeJsonDequeState"
    register_deque "NativeMessageDequeState"
    register_scan "NativeJsonDequeScan"
    register_scan "NativeJsonMapScan"
    register_scan "NativeMessageDequeScan"
    register_scan "NativeMessageMapScan"
    register_scan "NativeMapKeyScan"
