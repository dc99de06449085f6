-- ===== src/Client/Config/State/Descriptors.antt =====
-- ext/prosody/src/client/config/state.rs: the registration of keyed-state collections. A descriptor
-- of the core is its shape and name with the calls made on it, in order.
use prosody_rb.Base.{
  str_eq, ℕ, suc, String, Bool, true, false, Option, none, some, List, [], ◌∷◌, ◌++◌, Result, ok,
  err, ◌>>=◌, traverse_option, is_some, ◌&&◌, not, if◌then◌else◌,
}
use prosody_rb.Ruby.{Message, lit, number, quoted}
use prosody_rb.Client.Config.Native.{StateCollectionConfig}

pub data CollectionKind : Type 0 where
  value map set deque : CollectionKind

pub data CollectionPayload : Type 0 where
  json message : CollectionPayload

-- The text before the option's name in an error about a collection.
abbrev pub about : ℕ → Message → Message
about index rest = lit "state_collections[" ∷ number index ∷ lit "]" ∷ rest

abbrev pub bad_kind : ℕ → String → Message
bad_kind index other =
    about index
      (lit ".kind: expected \"value\", \"map\", \"set\", or \"deque\", got " ∷ quoted other ∷ [])

unfoldable pub parse_kind : ℕ → String → Result Message CollectionKind
parse_kind index kind =
    if str_eq kind "value"
    then ok value
    else if str_eq kind "map"
    then ok map
    else if str_eq kind "set"
    then ok set
    else if str_eq kind "deque"
    then ok deque
    else err (bad_kind index kind)

abbrev pub bad_payload : ℕ → String → Message
bad_payload index other =
    about index (lit ".payload: expected \"json\" or \"message\", got " ∷ quoted other ∷ [])

unfoldable pub parse_payload : ℕ → String → Result Message CollectionPayload
parse_payload index payload =
    if str_eq payload "json"
    then ok json
    else if str_eq payload "message"
    then ok message
    else err (bad_payload index payload)

-- The constructors of the core's descriptors that this code calls.
pub data Shape : Type 0 where
  value_json value_message map_json map_message deque_json deque_message set_keys : Shape

pub data DescriptorCall : Type 0 where
  ttl_call : ℕ → DescriptorCall
  read_uncommitted : DescriptorCall
  published : Bool → DescriptorCall
  keyset_limit : ℕ → DescriptorCall
  capacity : ℕ → DescriptorCall

pub record Descriptor : Type 0 where
  pub shape : Shape
  pub name : String
  pub calls : List DescriptorCall

abbrev option_call : {A : Type 0} → (A → DescriptorCall) → Option A → List DescriptorCall
option_call call none = []
option_call call (some a) = call a ∷ []

abbrev read_uncommitted_call : Option Bool → List DescriptorCall
read_uncommitted_call (some true) = read_uncommitted ∷ []
read_uncommitted_call (some false) = []
read_uncommitted_call none = []

unfoldable pub with_def : Shape → StateCollectionConfig → Descriptor
with_def shape c = record {
  shape = shape;
  name = c.name;
  calls =
      option_call ttl_call c.ttl_seconds
      ++ (read_uncommitted_call c.read_uncommitted ++ option_call published c.published);
}

abbrev pub with_calls : List DescriptorCall → Descriptor → Descriptor
with_calls calls d = record d { calls = d.calls ++ calls }

abbrev pub limits_keys : CollectionKind → Bool
limits_keys value = false
limits_keys map = true
limits_keys set = true
limits_keys deque = false

abbrev pub has_capacity : CollectionKind → Bool
has_capacity value = false
has_capacity map = false
has_capacity set = false
has_capacity deque = true

abbrev pub bad_keyset_limit : ℕ → Message
bad_keyset_limit index =
    about index (lit ".keyset_limit: only valid for map and set collections" ∷ [])

abbrev pub bad_capacity : ℕ → Message
bad_capacity index = about index (lit ".capacity: only valid for deque collections" ∷ [])

-- The functions `keyset_limit` and `capacity`.
unfoldable pub check_keyset_limit : Option ℕ → CollectionKind → ℕ → Result Message (Option ℕ)
check_keyset_limit v kind index =
    if is_some v && not (limits_keys kind) then err (bad_keyset_limit index) else ok v

unfoldable pub check_capacity : Option ℕ → CollectionKind → ℕ → Result Message (Option ℕ)
check_capacity v kind index =
    if is_some v && not (has_capacity kind) then err (bad_capacity index) else ok v

abbrev pub set_payload : ℕ → Message
set_payload index = about index (lit ".payload: omit it for a set collection" ∷ [])

abbrev pub no_payload : ℕ → Message
no_payload index = about index (lit ".payload: required for value, map, and deque collections" ∷ [])

-- The final `match`: the descriptor to register.
unfoldable pub descriptor :
    ℕ
    → StateCollectionConfig
    → CollectionKind
    → Option CollectionPayload
    → Option ℕ
    → Option ℕ
    → Result Message Descriptor
unfolding with_def
descriptor index c value (some json) limit cap = ok (with_def value_json c)
descriptor index c map (some json) limit cap =
    ok (with_calls (option_call keyset_limit limit) (with_def map_json c))
descriptor index c deque (some json) limit cap =
    ok (with_calls (option_call capacity cap) (with_def deque_json c))
descriptor index c value (some message) limit cap = ok (with_def value_message c)
descriptor index c map (some message) limit cap =
    ok (with_calls (option_call keyset_limit limit) (with_def map_message c))
descriptor index c deque (some message) limit cap =
    ok (with_calls (option_call capacity cap) (with_def deque_message c))
descriptor index c set none limit cap =
    ok (with_calls (option_call keyset_limit limit) (with_def set_keys c))
descriptor index c set (some _) limit cap = err (set_payload index)
descriptor index c value none limit cap = err (no_payload index)
descriptor index c map none limit cap = err (no_payload index)
descriptor index c deque none limit cap = err (no_payload index)

-- `register_state_collection`, up to the call that registers.
unfoldable pub state_collection : ℕ → StateCollectionConfig → Result Message Descriptor
unfolding descriptor parse_kind parse_payload check_keyset_limit check_capacity
state_collection index c = do
  kind ← parse_kind index c.kind
  payload ← traverse_option (parse_payload index) c.payload
  limit ← check_keyset_limit c.keyset_limit kind index
  cap ← check_capacity c.capacity kind index
  descriptor index c kind payload limit cap

-- The loop over `state_collections`, from an index on.
unfoldable pub register_from :
    ℕ → List StateCollectionConfig → List Descriptor → Result Message (List Descriptor)
unfolding state_collection
register_from index [] registered = ok registered
register_from index (c ∷ collections) registered =
    state_collection index c >>= λ d. register_from (suc index) collections (registered ++ (d ∷ []))
