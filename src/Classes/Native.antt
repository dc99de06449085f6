-- ===== src/Classes/Native.antt =====
-- The other classes: `init` in ext/prosody/src/admin.rs, bridge/mod.rs, handler/context/mod.rs,
-- handler/message.rs, handler/trigger.rs, published.rs and client/support.rs, and `define_methods`
-- of handler/context/vending.rs.
use prosody_rb.Base.{pos, negsuc, List, [], ◌∷◌}
use prosody_rb.Ruby.{Value}
use prosody_rb.Ruby.Effects.{M, ◌>>=◌, ◌>>◌, pure}
use prosody_rb.Classes.{Method, method, Definer, define_methods}

-- The methods of each class, in the order of the definitions.
abbrev pub admin_methods : List Method
admin_methods =
    method "create_topic" "AdminClient::create_topic" (negsuc 0)
    ∷ method "delete_topic" "AdminClient::delete_topic" (pos 1)
    ∷ []

abbrev pub context_methods : List Method
context_methods =
    method "should_cancel?" "Context::should_cancel" (pos 0)
    ∷ method "on_cancel" "Context::on_cancel" (pos 0)
    ∷ method "demand" "Context::demand" (pos 0)
    ∷ method "schedule" "Context::schedule" (pos 1)
    ∷ method "clear_and_schedule" "Context::clear_and_schedule" (pos 1)
    ∷ method "unschedule" "Context::unschedule" (pos 1)
    ∷ method "clear_scheduled" "Context::clear_scheduled" (pos 0)
    ∷ method "scheduled" "Context::scheduled" (pos 0)
    ∷ []

abbrev pub vending_methods : List Method
vending_methods =
    method "value_state" "value_state" (pos 1)
    ∷ method "map_state" "map_state" (pos 1)
    ∷ method "set_state" "set_state" (pos 1)
    ∷ method "deque_state" "deque_state" (pos 1)
    ∷ method "message_value_state" "message_value_state" (pos 1)
    ∷ method "message_map_state" "message_map_state" (pos 1)
    ∷ method "message_deque_state" "message_deque_state" (pos 1)
    ∷ []

abbrev pub message_methods : List Method
message_methods =
    method "topic" "Message::topic" (pos 0)
    ∷ method "partition" "Message::partition" (pos 0)
    ∷ method "offset" "Message::offset" (pos 0)
    ∷ method "key" "Message::key" (pos 0)
    ∷ method "timestamp" "Message::timestamp" (pos 0)
    ∷ method "payload" "Message::payload" (pos 0)
    ∷ method "source_system" "Message::source_system" (pos 0)
    ∷ method "response_requested?" "Message::response_requested" (pos 0)
    ∷ []

abbrev pub excise_methods : List Method
excise_methods =
    method "topic" "ExciseMessage::topic" (pos 0)
    ∷ method "partition" "ExciseMessage::partition" (pos 0)
    ∷ method "offset" "ExciseMessage::offset" (pos 0)
    ∷ method "key" "ExciseMessage::key" (pos 0)
    ∷ method "timestamp" "ExciseMessage::timestamp" (pos 0)
    ∷ method "source_system" "ExciseMessage::source_system" (pos 0)
    ∷ method "response_requested?" "ExciseMessage::response_requested" (pos 0)
    ∷ []

abbrev pub timer_methods : List Method
timer_methods = method "key" "Timer::key" (pos 0) ∷ method "time" "Timer::time" (pos 0) ∷ []

abbrev pub published_value_methods : List Method
published_value_methods = method "get" "NativePublishedValue::get" (pos 1) ∷ []

abbrev pub published_map_methods : List Method
published_map_methods =
    method "get" "NativePublishedMap::get" (pos 2)
    ∷ method "get_many" "NativePublishedMap::get_many" (pos 2)
    ∷ method "contains_key" "NativePublishedMap::contains_key" (pos 2)
    ∷ method "contains_many" "NativePublishedMap::contains_many" (pos 2)
    ∷ method "is_empty" "NativePublishedMap::is_empty" (pos 1)
    ∷ method "scan" "NativePublishedMap::scan" (pos 3)
    ∷ method "keys" "NativePublishedMap::keys" (pos 3)
    ∷ []

abbrev pub published_set_methods : List Method
published_set_methods =
    method "contains" "NativePublishedSet::contains" (pos 2)
    ∷ method "contains_many" "NativePublishedSet::contains_many" (pos 2)
    ∷ method "is_empty" "NativePublishedSet::is_empty" (pos 1)
    ∷ method "keys" "NativePublishedSet::keys" (pos 3)
    ∷ []

abbrev pub published_deque_methods : List Method
published_deque_methods =
    method "get" "NativePublishedDeque::get" (pos 2)
    ∷ method "length" "NativePublishedDeque::length" (pos 1)
    ∷ method "is_empty" "NativePublishedDeque::is_empty" (pos 1)
    ∷ method "peek_front" "NativePublishedDeque::peek_front" (pos 1)
    ∷ method "peek_back" "NativePublishedDeque::peek_back" (pos 1)
    ∷ method "scan" "NativePublishedDeque::scan" (pos 3)
    ∷ []

abbrev pub client_methods : List Method
client_methods =
    method "consumer_state" "Client::consumer_state" (pos 0)
    ∷ method "send_message" "Client::send" (pos 3)
    ∷ method "excise" "Client::excise" (pos 2)
    ∷ method "native_request" "request::request" (pos 1)
    ∷ method "native_request_excise" "request::request_excise" (pos 1)
    ∷ method "subscribe" "Client::subscribe" (pos 1)
    ∷ method "assigned_partition_count" "Client::assigned_partition_count" (pos 0)
    ∷ method "stalled?" "Client::is_stalled" (pos 0)
    ∷ method "unsubscribe" "Client::unsubscribe" (pos 0)
    ∷ method "shutdown" "Client::shutdown" (pos 0)
    ∷ method "source_system" "Client::source_system" (pos 0)
    ∷ method "published_value" "readers::published_value" (pos 3)
    ∷ method "published_map" "readers::published_map" (pos 3)
    ∷ method "published_set" "readers::published_set" (pos 3)
    ∷ method "published_deque" "readers::published_deque" (pos 3)
    ∷ []

module _ {W : Type 0} (rb : Definer W) where
  unfoldable pub admin_init : M W (Unit {0})
  admin_init = do
    class ← rb.define_class "AdminClient"
    rb.define_singleton_method class (method "new" "AdminClient::new" (pos 1))
    define_methods rb class admin_methods

  unfoldable pub bridge_init : M W (Unit {0})
  bridge_init = do class ← rb.define_class "DynamicResult"; pure tt

  -- `vending::define_methods`
  unfoldable pub define_vending : Value → M W (Unit {0})
  define_vending class = define_methods rb class vending_methods

  unfoldable pub context_init : M W (Unit {0})
  unfolding define_vending
  context_init = do
    class ← rb.define_class "Context"
    define_methods rb class context_methods
    define_vending class

  unfoldable pub message_init : M W (Unit {0})
  message_init = do
    class ← rb.define_class "Message"
    define_methods rb class message_methods
    class ← rb.define_class "ExciseMessage"
    define_methods rb class excise_methods

  unfoldable pub trigger_init : M W (Unit {0})
  trigger_init = do class ← rb.define_class "Timer"; define_methods rb class timer_methods

  unfoldable pub published_init : M W (Unit {0})
  published_init = do
    value ← rb.define_class "NativePublishedValue"
    define_methods rb value published_value_methods
    map ← rb.define_class "NativePublishedMap"
    define_methods rb map published_map_methods
    set ← rb.define_class "NativePublishedSet"
    define_methods rb set published_set_methods
    deque ← rb.define_class "NativePublishedDeque"
    define_methods rb deque published_deque_methods

  unfoldable pub client_init : M W (Unit {0})
  client_init = do
    class ← rb.define_class "Client"
    rb.define_singleton_method class (method "new" "Client::new" (pos 1))
    define_methods rb class client_methods
