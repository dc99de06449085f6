-- ===== src/Client/Config/Native.antt =====
-- `NativeConfiguration` and the types of its fields: ext/prosody/src/client/config/mod.rs and, for
-- the keyed-state options, ext/prosody/src/client/config/state.rs. A float is a value of `F64`.
use prosody_rb.Base.{ℕ, ℤ, String, Bool, true, false, Option, none, List}

-- `ProbePort`
pub data ProbePort : Type 0 where
  unconfigured disabled : ProbePort
  configured : ℕ → ProbePort

-- What serde hands to the visitor of a probe port.
pub data ProbeToken : Type 0 where
  u16 : ℕ → ProbeToken
  bool : Bool → ProbeToken
  unit : ProbeToken

-- `StateCollectionConfig`. A given capacity is a `NonZeroUsize`.
pub record StateCollectionConfig : Type 0 where
  pub name : String
  pub kind : String
  pub payload : Option String
  pub ttl_seconds : Option ℕ
  pub read_uncommitted : Option Bool
  pub published : Option Bool
  pub keyset_limit : Option ℕ
  pub capacity : Option ℕ

-- `ReadCacheConfig`
pub data ReadCacheConfig (F64 : Type 0) : Type 0 where
  disabled : Bool → ReadCacheConfig F64
  ttl : F64 → ReadCacheConfig F64

pub record NativeConfiguration (F64 : Type 0) : Type 0 where
  pub bootstrap_servers : Option (List String)
  pub mock : Option Bool
  pub send_timeout : Option F64
  pub group_id : Option String
  pub idempotence_cache_size : Option ℕ
  pub idempotence_version : Option String
  pub idempotence_ttl : Option F64
  pub subscribed_topics : Option (List String)
  pub allowed_events : Option (List String)
  pub source_system : Option String
  pub max_concurrency : Option ℕ
  pub max_uncommitted : Option ℕ
  pub stall_threshold : Option F64
  pub shutdown_timeout : Option F64
  pub poll_interval : Option F64
  pub commit_interval : Option F64
  pub statistics_interval : Option F64
  pub mode : Option String
  pub retry_base : Option F64
  pub max_retries : Option ℕ
  pub max_retry_delay : Option F64
  pub failure_topic : Option String
  pub probe_port : Option ProbePort
  pub cassandra_nodes : Option (List String)
  pub cassandra_keyspace : Option String
  pub cassandra_datacenter : Option String
  pub cassandra_rack : Option String
  pub cassandra_user : Option String
  pub cassandra_password : Option String
  pub cassandra_retention : Option F64
  pub slab_size : Option F64
  pub scheduler_failure_weight : Option F64
  pub scheduler_max_wait : Option F64
  pub scheduler_wait_weight : Option F64
  pub scheduler_cache_size : Option ℕ
  pub monopolization_enabled : Option Bool
  pub monopolization_threshold : Option F64
  pub monopolization_window : Option F64
  pub monopolization_cache_size : Option ℕ
  pub defer_enabled : Option Bool
  pub defer_base : Option F64
  pub defer_max_delay : Option F64
  pub defer_failure_threshold : Option F64
  pub defer_failure_window : Option F64
  pub loader_cache_size : Option ℕ
  pub defer_store_cache_size : Option ℕ
  pub loader_seek_timeout : Option F64
  pub loader_discard_threshold : Option ℤ
  pub timeout : Option F64
  pub telemetry_topic : Option String
  pub telemetry_enabled : Option Bool
  pub message_spans : Option String
  pub timer_spans : Option String
  pub peer_bind_address : Option String
  pub peer_advertised_connect : Option String
  pub peer_network_name : Option String
  pub peer_cache_capacity : Option ℕ
  pub peer_registration_ttl : Option F64
  pub state_collections : Option (List StateCollectionConfig)
  pub subsystem : Option String
  pub state_cache_dir : Option String
  pub state_owned_cache_size : Option String
  pub state_memtable_size : Option String
  pub state_read_cache_size : Option String
  pub state_read_cache : Option (ReadCacheConfig F64)

-- The visitor of `ProbePort::deserialize`.
unfoldable pub deserialize_probe_port : ProbeToken → ProbePort
deserialize_probe_port (u16 port) = configured port
deserialize_probe_port (bool enabled) = elim enabled [
  | true ↦ unconfigured
  | false ↦ ProbePort.disabled
]
deserialize_probe_port unit = unconfigured

-- `NativeConfiguration::default()`: no option is given.
abbrev pub default_configuration : {F64 : Type 0} → NativeConfiguration F64
default_configuration = record {
  bootstrap_servers = none;
  mock = none;
  send_timeout = none;
  group_id = none;
  idempotence_cache_size = none;
  idempotence_version = none;
  idempotence_ttl = none;
  subscribed_topics = none;
  allowed_events = none;
  source_system = none;
  max_concurrency = none;
  max_uncommitted = none;
  stall_threshold = none;
  shutdown_timeout = none;
  poll_interval = none;
  commit_interval = none;
  statistics_interval = none;
  mode = none;
  retry_base = none;
  max_retries = none;
  max_retry_delay = none;
  failure_topic = none;
  probe_port = none;
  cassandra_nodes = none;
  cassandra_keyspace = none;
  cassandra_datacenter = none;
  cassandra_rack = none;
  cassandra_user = none;
  cassandra_password = none;
  cassandra_retention = none;
  slab_size = none;
  scheduler_failure_weight = none;
  scheduler_max_wait = none;
  scheduler_wait_weight = none;
  scheduler_cache_size = none;
  monopolization_enabled = none;
  monopolization_threshold = none;
  monopolization_window = none;
  monopolization_cache_size = none;
  defer_enabled = none;
  defer_base = none;
  defer_max_delay = none;
  defer_failure_threshold = none;
  defer_failure_window = none;
  loader_cache_size = none;
  defer_store_cache_size = none;
  loader_seek_timeout = none;
  loader_discard_threshold = none;
  timeout = none;
  telemetry_topic = none;
  telemetry_enabled = none;
  message_spans = none;
  timer_spans = none;
  peer_bind_address = none;
  peer_advertised_connect = none;
  peer_network_name = none;
  peer_cache_capacity = none;
  peer_registration_ttl = none;
  state_collections = none;
  subsystem = none;
  state_cache_dir = none;
  state_owned_cache_size = none;
  state_memtable_size = none;
  state_read_cache_size = none;
  state_read_cache = none;
}
