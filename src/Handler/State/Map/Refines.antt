-- ===== src/Handler/State/Map/Refines.antt =====
-- The handle of a map, over a core whose map is a function from keys to items, is that function.
use mathlib.Core.List.{map}
use prosody_rb.Base.{All, ◌≡◌, Option, List, Result}
use prosody_rb.Ruby.{Value, Error}
use prosody_rb.Ruby.Effects.{M, pure, lift, collect_effects}
use prosody_rb.Ruby.Effects.Refines.{
  Refines, collect_effects-Refines, session, session-Refines_where,
}
use prosody_rb.Ruby.Vm.{Vm}
use prosody_rb.Handler.State.Handles.Laws.{
  Traces, answered-Refines, converted-Refines, stored-Refines,
}
use prosody_rb.Handler.State.Map.{
  MapState, map_get, map_contains_key, map_get_many, map_contains_many, map_set, map_remove,
  map_clear,
}
use prosody_rb.Handler.State.Map.Entries.{
  Call, get, contains_key, get_many, contains_many, set, remove, clear, value, values, flag, flags,
  nothing, Entries, insert, IsMap, IsTaken, entries_call, map_call,
}

module _ {W Item : Type 0} (vm : Vm W) (core : MapState W Item) (prepare : Value → M W Item)
    (restore : Option Item → M W Value) (view : W → Entries Item)
    (convert : Value → Result Error Item) (show : Option Item → Value) (IsStorable : Item → Type 0)
    (laws : IsMap IsStorable view core) (traces : Traces view vm)
    (prepares : (v : Value) → Refines view (prepare v) (lift (convert v)))
    (restores : (item : Option Item) → Refines view (restore item) (pure (show item))) where
  map_call-Refines :
      (c : Call)
      → IsTaken convert IsStorable c
      → Refines view (map_call vm core prepare restore c) (entries_call convert show c)
  unfolding map_call map_get map_contains_key map_get_many map_contains_many map_set map_remove
      map_clear
  map_call-Refines (get k) h =
      converted-Refines view vm traces restore show value restores (laws.get_law k)
  map_call-Refines (contains_key k) h =
      answered-Refines view vm traces flag (laws.contains_key_law k)
  map_call-Refines (get_many ks) h =
      converted-Refines view vm traces (collect_effects restore) (map show) values
        (collect_effects-Refines view restore show restores) (laws.get_many_law ks)
  map_call-Refines (contains_many ks) h =
      answered-Refines view vm traces flags (laws.contains_many_law ks)
  map_call-Refines (set k v) h =
      stored-Refines view vm traces (prepare v) (convert v) (insert k) nothing (prepares v)
        (λ item. λ e. laws.set_law k item (h item e))
  map_call-Refines (remove k) h = answered-Refines view vm traces (λ _. nothing) (laws.remove_law k)
  map_call-Refines clear h = answered-Refines view vm traces (λ _. nothing) laws.clear_law

  -- Let the core's map be a function from keys to items, which its seven operations look up and
  -- change, each with success, a `set` if it is of an item that the core takes; let the tracing context be extracted, and the conversions compute
  -- `convert`, which may fail, and `show`, all without a change of the map. Then Ruby's calls of a
  -- map handle, in any number and order, return or raise what the same calls do on that function, if
  -- each value that they set and that converts is one that the core takes, as JSON's null is not,
  -- several keys at once like each key alone, and the function that is left is the same too.
  pub map_call-Refines-entries :
      (calls : List Call) (w : W)
      → All (IsTaken convert IsStorable) calls
      → let r = session (map_call vm core prepare restore) calls w in
        let s = session (entries_call convert show) calls (view w) in (r.0 ≡ s.0) × (view r.1 ≡ s.1)
  map_call-Refines-entries =
      session-Refines_where view (map_call vm core prepare restore) (entries_call convert show)
        (IsTaken convert IsStorable) map_call-Refines
