-- ===== src/Handler/State/Map/Entries.antt =====
-- The calls of the handle of a map from Ruby, and what they are to do where the map is a function
-- from keys to items. The order of the keys, which only scans see, is forgotten.
use mathlib.Core.List.{map}
use prosody_rb.Base.{
  ◌≡◌, ok, str_eq, String, Bool, true, false, Option, none, some, List, Result, if◌then◌else◌,
}
use prosody_rb.Ruby.{Value, Error}
use prosody_rb.Ruby.Effects.{M, ◌>>=◌, pure, lift}
use prosody_rb.Ruby.Vm.{Vm}
use prosody_rb.Handler.State.Handles.Laws.{does, Does}
use prosody_rb.Handler.State.Map.{
  MapState, map_get, map_contains_key, map_get_many, map_contains_many, map_set, map_remove,
  map_clear,
}

-- A call of a handle, and what it returns.
pub data Call : Type 0 where
  get contains_key remove : String → Call
  get_many contains_many : List String → Call
  set : String → Value → Call
  clear : Call

pub data Reply : Type 0 where
  value : Value → Reply
  values : List Value → Reply
  flag : Bool → Reply
  flags : List Bool → Reply
  nothing : Reply

abbrev pub Entries : Type 0 → Type 0
Entries Item = String → Option Item

module _ {Item : Type 0} where
  abbrev pub is_present : Option Item → Bool
  is_present none = false
  is_present (some item) = true

  -- What each operation does to the entries: its result, and the entries after it.
  abbrev pub looked : {A : Type 0} → (Entries Item → A) → Entries Item → A × Entries Item
  looked f m = (f m, m)

  abbrev pub changed : (Entries Item → Entries Item) → Entries Item → Unit {0} × Entries Item
  changed f m = (tt, f m)

  abbrev pub insert : String → Item → Entries Item → Entries Item
  insert key item m k = if str_eq k key then some item else m k

  abbrev pub erase : String → Entries Item → Entries Item
  erase key m k = if str_eq k key then none else m k

  abbrev pub empty : Entries Item → Entries Item
  empty m k = none

-- The laws of a core whose map is `view w`.
-- The core refuses to store some items, JSON's null for one; the law of `set` is about those that it
-- takes.
pub record IsMap {W Item : Type 0} (IsStorable : Item → Type 0) (view : W → Entries Item)
    (core : MapState W Item) : Type 0 where
  pub get_law : (k : String) → Does view (core.wait_get k) (looked (λ m. m k))
  pub contains_key_law :
      (k : String) → Does view (core.wait_contains_key k) (looked (λ m. is_present (m k)))
  pub get_many_law : (ks : List String) → Does view (core.wait_get_many ks) (looked (λ m. map m ks))
  pub contains_many_law :
      (ks : List String)
      → Does view (core.wait_contains_many ks) (looked (λ m. map (λ k. is_present (m k)) ks))
  pub set_law :
      (k : String) (item : Item)
      → IsStorable item
      → Does view (core.wait_set k item) (changed (insert k item))
  pub remove_law : (k : String) → Does view (core.wait_remove k) (changed (erase k))
  pub clear_law : Does view core.wait_clear (changed empty)

-- The calls, on the entries: `convert` and `show` are what the conversions compute.
module _ {Item : Type 0} (convert : Value → Result Error Item) (show : Option Item → Value) where
  abbrev pub entries_call : Call → M (Entries Item) Reply
  entries_call (get k) =
      (does (looked (λ m. m k)) >>= λ item. pure (show item)) >>= λ v. pure (value v)
  entries_call (contains_key k) = does (looked (λ m. is_present (m k))) >>= λ b. pure (flag b)
  entries_call (get_many ks) =
      (does (looked (λ m. map m ks)) >>= λ items. pure (map show items)) >>= λ vs. pure (values vs)
  entries_call (contains_many ks) =
      does (looked (λ m. map (λ k. is_present (m k)) ks)) >>= λ bs. pure (flags bs)
  entries_call (set k v) =
      (lift (convert v) >>= λ item. does (changed (insert k item))) >>= λ _. pure nothing
  entries_call (remove k) = does (changed (erase k)) >>= λ _. pure nothing
  entries_call clear = does (changed empty) >>= λ _. pure nothing

module _ {W Item : Type 0} (vm : Vm W) (core : MapState W Item) (prepare : Value → M W Item)
    (restore : Option Item → M W Value) where
  -- The method that Ruby calls.
  unfoldable pub map_call : Call → M W Reply
  unfolding map_get map_contains_key map_get_many map_contains_many map_set map_remove map_clear
  map_call (get k) = map_get vm core prepare restore k >>= λ v. pure (value v)
  map_call (contains_key k) = map_contains_key vm core prepare restore k >>= λ b. pure (flag b)
  map_call (get_many ks) = map_get_many vm core prepare restore ks >>= λ vs. pure (values vs)
  map_call (contains_many ks) =
      map_contains_many vm core prepare restore ks >>= λ bs. pure (flags bs)
  map_call (set k v) = map_set vm core prepare restore k v >>= λ _. pure nothing
  map_call (remove k) = map_remove vm core prepare restore k >>= λ _. pure nothing
  map_call clear = map_clear vm core prepare restore >>= λ _. pure nothing

-- A call that stores nothing, or a value that is refused by its conversion or taken by the core.
abbrev pub IsTaken : {Item : Type 0} → (Value → Result Error Item) → (Item → Type 0) → Call → Type 0
IsTaken {Item} convert IsStorable (set k v) = (item : Item) → convert v ≡ ok item → IsStorable item
IsTaken convert IsStorable _ = Unit
