-- ===== src/Client/Config/Connections.antt =====
-- ext/prosody/src/client/config/connections.rs: the producer, consumer, Cassandra and telemetry
-- builders.
use prosody_rb.Base.{ℕ, String, Bool, Option, none, some, List, [], ◌∷◌, Result, ok}
use prosody_rb.Ruby.{Message}
use prosody_rb.Client.Config.Core.{Parsers}
use prosody_rb.Client.Config.Native.{
  NativeConfiguration, ProbePort, unconfigured, disabled, configured,
}
use prosody_rb.Client.Config.Fields.{Field, plain, timed, apply_fields}

module _ (Duration : Type 0) where
  pub data ProducerSetting : Type 0 where
    bootstrap_servers : List String → ProducerSetting
    send_timeout : Duration → ProducerSetting
    idempotence_cache_size : ℕ → ProducerSetting
    source_system : String → ProducerSetting
    mock : Bool → ProducerSetting

  pub data CassandraSetting : Type 0 where
    nodes : List String → CassandraSetting
    keyspace datacenter rack user password : String → CassandraSetting
    retention : Duration → CassandraSetting

pub data EmitterSetting : Type 0 where
  topic : String → EmitterSetting
  enabled : Bool → EmitterSetting

-- The settings of `ConsumerConfigurationBuilder`, with those that `ConsumerBuilders` adds.
pub data ConsumerSetting (Duration Span Loader : Type 0) : Type 0 where
  bootstrap_servers : List String → ConsumerSetting Duration Span Loader
  group_id : String → ConsumerSetting Duration Span Loader
  subscribed_topics allowed_events : List String → ConsumerSetting Duration Span Loader
  max_uncommitted : ℕ → ConsumerSetting Duration Span Loader
  stall_threshold shutdown_timeout poll_interval commit_interval statistics_interval :
      Duration → ConsumerSetting Duration Span Loader
  mock : Bool → ConsumerSetting Duration Span Loader
  probe_port : Option ℕ → ConsumerSetting Duration Span Loader
  slab_size : Duration → ConsumerSetting Duration Span Loader
  message_spans timer_spans : Span → ConsumerSetting Duration Span Loader
  loader : Loader → ConsumerSetting Duration Span Loader

module _ (p : Parsers) where
  open p use {F64, Duration, floats, SpanRelation}

  abbrev pub producer_fields : NativeConfiguration F64 → List (Field (ProducerSetting Duration))
  producer_fields c =
      plain c.bootstrap_servers ProducerSetting.bootstrap_servers
      ∷ timed floats "send_timeout" c.send_timeout send_timeout
      ∷ plain c.idempotence_cache_size idempotence_cache_size
      ∷ plain c.source_system source_system
      ∷ plain c.mock ProducerSetting.mock
      ∷ []

  unfoldable pub producer_builder :
      NativeConfiguration F64 → Result Message (List (ProducerSetting Duration))
  producer_builder c = apply_fields (producer_fields c)

  abbrev pub probe_field :
      {Loader : Type 0} → Option ProbePort → Field (ConsumerSetting Duration SpanRelation Loader)
  probe_field none = none
  probe_field (some unconfigured) = none
  probe_field (some disabled) = some (ok (probe_port none))
  probe_field (some (configured port)) = some (ok (probe_port (some port)))

  abbrev pub consumer_fields :
      {Loader : Type 0}
      → NativeConfiguration F64
      → List (Field (ConsumerSetting Duration SpanRelation Loader))
  consumer_fields c =
      plain c.bootstrap_servers ConsumerSetting.bootstrap_servers
      ∷ plain c.group_id group_id
      ∷ plain c.subscribed_topics subscribed_topics
      ∷ plain c.allowed_events allowed_events
      ∷ plain c.max_uncommitted max_uncommitted
      ∷ timed floats "stall_threshold" c.stall_threshold stall_threshold
      ∷ timed floats "shutdown_timeout" c.shutdown_timeout shutdown_timeout
      ∷ timed floats "poll_interval" c.poll_interval poll_interval
      ∷ timed floats "commit_interval" c.commit_interval commit_interval
      ∷ timed floats "statistics_interval" c.statistics_interval statistics_interval
      ∷ plain c.mock ConsumerSetting.mock
      ∷ probe_field c.probe_port
      ∷ timed floats "slab_size" c.slab_size slab_size
      ∷ []

  unfoldable pub consumer_builder :
      {Loader : Type 0}
      → NativeConfiguration F64
      → Result Message (List (ConsumerSetting Duration SpanRelation Loader))
  consumer_builder c = apply_fields (consumer_fields c)

  abbrev pub cassandra_fields : NativeConfiguration F64 → List (Field (CassandraSetting Duration))
  cassandra_fields c =
      plain c.cassandra_nodes nodes
      ∷ plain c.cassandra_keyspace keyspace
      ∷ plain c.cassandra_datacenter datacenter
      ∷ plain c.cassandra_rack rack
      ∷ plain c.cassandra_user user
      ∷ plain c.cassandra_password password
      ∷ timed floats "cassandra_retention" c.cassandra_retention retention
      ∷ []

  unfoldable pub cassandra_builder :
      NativeConfiguration F64 → Result Message (List (CassandraSetting Duration))
  cassandra_builder c = apply_fields (cassandra_fields c)

  -- The settings that `TelemetryEmitterConfiguration` is built from.
  unfoldable pub emitter_builder : NativeConfiguration F64 → Result Message (List EmitterSetting)
  emitter_builder c =
      apply_fields (plain c.telemetry_topic topic ∷ plain c.telemetry_enabled enabled ∷ [])
