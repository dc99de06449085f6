-- ===== src/Client/Start/Tests.antt =====
-- A client of the default configuration.
use prosody_rb.Base.{ℕ, pos, ◌≡◌, ◌≢◌, refl, true, some, List, ok, IsOk}
use prosody_rb.Ruby.{nil}
use prosody_rb.Ruby.Effects.{pure}
use prosody_rb.Ruby.Vm.Sample.{sample}
use prosody_rb.Ruby.Vm.{Vm}
use prosody_rb.Util.ForkGuard.{create}
use prosody_rb.Util.Seconds.{seconds}
use prosody_rb.Client.Config.Native.{NativeConfiguration, ReadCacheConfig, default_configuration}
use prosody_rb.Client.Config.Sample.{parsers}
use prosody_rb.Client.Config.Consumers.{consumer_builders, Mode, Builds, ConsumerBuilders, pipeline}
use prosody_rb.Client.Config.Connections.{consumer_builder, ProducerSetting, CassandraSetting}
use prosody_rb.Client.Config.Fields.{apply_fields, IsDuration}
use prosody_rb.Client.Config.Middleware.{
  retry_builder, scheduler_builder, monopolization_builder, defer_builder, timeout_builder,
  deduplication_builder,
}
use prosody_rb.Client.Config.Accepted.{IsCacheDuration, consumer_builders-IsDuration}
use prosody_rb.Client.Config.State.{read_cache_policy}
use prosody_rb.Client.Start.{Starting, new_client, native_config, config_object, settings, start}
use prosody_rb.Client.Start.Valid.{IsValid, new_client-IsValid}

abbrev vm : Vm ℕ
vm = sample (λ w. w)

abbrev builds : Builds parsers
builds = record {
  Loader = ℕ;
  Emitter = ℕ;
  Keyed = ℕ;
  Peer = ℕ;
  build_loader = λ settings. ok 0;
  build_emitter = λ settings. ok 1;
  build_keyed = λ settings. ok 2;
  build_peer = λ settings. ok 3;
}

abbrev starting : Starting parsers builds ℕ
starting = record {
  Core = ℕ;
  require_opentelemetry = pure tt;
  ensure_runtime = λ w. w;
  has_bridge = λ w. true;
  is_kind_of = λ v. λ class. λ w. true;
  deserialize = λ v. λ w. ok default_configuration;
  default_mode = pipeline;
  wait_new_erased = λ mode. λ producer. λ consumers. λ cassandra. pure (ok 9);
}

started_client :
    new_client vm parsers builds starting nil 4
    ≡ (ok (record { inner = 9; fork = create 4 "Prosody::Client" }), 4)
unfolding new_client native_config config_object settings start apply_fields read_cache_policy
started_client = refl

new_client-IsValid_example :
    (native : NativeConfiguration (parsers.F64)) × (mode : Mode) × (producer : List
      (ProducerSetting (parsers.Duration)))
    × (consumers : ConsumerBuilders parsers builds) × (cassandra : List
        (CassandraSetting (parsers.Duration)))
    × (w1 : ℕ) × (w2 : ℕ) × (w3 : ℕ) × (starting.require_opentelemetry 4 ≡ (ok tt, w1))
    × (native_config vm parsers builds starting nil (starting.ensure_runtime w1) ≡ (ok native, w2))
    × (settings vm parsers builds starting native w2
        ≡ (ok (mode, producer, consumers, cassandra), w3))
    × IsValid vm parsers builds starting native w3 mode producer consumers cassandra
    × (starting.wait_new_erased mode producer consumers cassandra w3 ≡ (ok (ok 9), 4))
    × (create 4 "Prosody::Client" ≡ create 4 "Prosody::Client")
    × IsDuration (parsers.floats) native.send_timeout
new_client-IsValid_example = new_client-IsValid vm parsers builds starting nil 4 started_client

abbrev timed : NativeConfiguration parsers.F64
timed = record (default_configuration {F64 = parsers.F64}) {
  retry_base = some (pos 2);
  timeout = some (pos 30);
  loader_seek_timeout = some (pos 5);
  state_read_cache = some (ReadCacheConfig.ttl (pos 60));
  idempotence_cache_size = some 100;
}

timed_builders : IsOk (consumer_builders parsers builds timed)
unfolding consumer_builders consumer_builder retry_builder scheduler_builder monopolization_builder
    defer_builder timeout_builder deduplication_builder apply_fields seconds read_cache_policy
timed_builders = tt

consumer_builders-IsDuration_example :
    IsDuration parsers.floats timed.stall_threshold
    × IsDuration parsers.floats timed.shutdown_timeout
    × IsDuration parsers.floats timed.poll_interval
    × IsDuration parsers.floats timed.commit_interval
    × IsDuration parsers.floats timed.statistics_interval
    × IsDuration parsers.floats timed.slab_size
    × IsDuration parsers.floats timed.retry_base
    × IsDuration parsers.floats timed.max_retry_delay
    × IsDuration parsers.floats timed.scheduler_max_wait
    × IsDuration parsers.floats timed.monopolization_window
    × IsDuration parsers.floats timed.defer_base
    × IsDuration parsers.floats timed.defer_max_delay
    × IsDuration parsers.floats timed.defer_failure_window
    × IsDuration parsers.floats timed.timeout
    × IsDuration parsers.floats timed.idempotence_ttl
    × IsDuration parsers.floats timed.loader_seek_timeout
    × IsDuration parsers.floats timed.peer_registration_ttl
    × IsCacheDuration parsers.floats timed.state_read_cache
    × (timed.idempotence_cache_size ≢ some 0)
consumer_builders-IsDuration_example =
    consumer_builders-IsDuration parsers builds timed timed_builders
