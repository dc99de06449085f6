-- ===== src/Client/Config/Consumers.antt =====
-- The conversions of ext/prosody/src/client/config/mod.rs: the processing mode, and
-- `ConsumerBuilders` with the loader and the peer. The `build` methods of the core are parameters.
use prosody_rb.Base.{
  str_eq, ℕ, ℤ, String, Bool, ◌||◌, Option, none, some, List, [], ◌∷◌, ◌++◌, Result, ok, err, ◌>>=◌,
  map_err, is_some, if◌then◌else◌,
}
use prosody_rb.Ruby.{Message, lit}
use prosody_rb.Client.Config.Core.{Parsers}
use prosody_rb.Client.Config.Native.{NativeConfiguration}
use prosody_rb.Client.Config.Fields.{Field, plain, checked, timed, under, apply_fields}
use prosody_rb.Client.Config.Connections.{
  ConsumerSetting, message_spans, timer_spans, loader, EmitterSetting, consumer_builder,
  emitter_builder,
}
use prosody_rb.Client.Config.Middleware.{
  RetrySetting, FailureTopicSetting, SchedulerSetting, MonopolizationSetting, DeferSetting,
  TimeoutSetting, DeduplicationSetting, retry_builder, failure_topic_builder, scheduler_builder,
  monopolization_builder, defer_builder, timeout_builder, deduplication_builder,
}
use prosody_rb.Client.Config.State.{KeyedState, KeyedStateSetting, build_keyed_state_config}

-- `Mode` of the core.
pub data Mode : Type 0 where
  pipeline low_latency best_effort : Mode

abbrev pub unrecognized_mode : String → Message
unrecognized_mode s = lit "unrecognized mode: " ∷ lit s ∷ []

-- The conversion into `Mode`; the core's default is an argument.
unfoldable pub parse_mode : Mode → Option String → Result Message Mode
parse_mode default none = ok default
parse_mode default (some mode) =
    if str_eq mode "pipeline"
    then ok pipeline
    else if str_eq mode "low_latency"
    then ok low_latency
    else if str_eq mode "best_effort"
    then ok best_effort
    else err (unrecognized_mode mode)

pub data LoaderSetting (Duration : Type 0) : Type 0 where
  cache_size : ℕ → LoaderSetting Duration
  seek_timeout : Duration → LoaderSetting Duration
  discard_threshold : ℤ → LoaderSetting Duration

pub data PeerSetting (Duration Address Endpoint : Type 0) : Type 0 where
  bind_address : Address → PeerSetting Duration Address Endpoint
  advertised_connect : Endpoint → PeerSetting Duration Address Endpoint
  network_name : String → PeerSetting Duration Address Endpoint
  peer_cache_capacity : ℕ → PeerSetting Duration Address Endpoint
  registration_ttl : Duration → PeerSetting Duration Address Endpoint

-- The `build` methods of the core, with the texts of their errors.
pub record Builds (p : Parsers) : Type 1 where
  pub Loader : Type 0
  pub Emitter : Type 0
  pub Keyed : Type 0
  pub Peer : Type 0
  pub build_loader : List (LoaderSetting p.Duration) → Result String Loader
  pub build_emitter : List EmitterSetting → Result String Emitter
  pub build_keyed :
      List (KeyedStateSetting p.Duration p.ByteSize p.SubsystemName) → Result String Keyed
  pub build_peer : List (PeerSetting p.Duration p.SocketAddr p.PeerEndpoint) → Result String Peer

-- `ConsumerBuilders` of the core.
pub record ConsumerBuilders (p : Parsers) (b : Builds p) : Type 0 where
  pub consumer : List (ConsumerSetting p.Duration p.SpanRelation b.Loader)
  pub retry : List (RetrySetting p.Duration)
  pub failure_topic : List FailureTopicSetting
  pub scheduler : List (SchedulerSetting p.F64 p.Duration)
  pub monopolization : List (MonopolizationSetting p.F64 p.Duration)
  pub defer : List (DeferSetting p.F64 p.Duration)
  pub timeout : List (TimeoutSetting p.Duration)
  pub dedup : List (DeduplicationSetting p.Duration)
  pub emitter : b.Emitter
  pub keyed_state : KeyedState b.Keyed
  pub peer : b.Peer

-- An error of a core `build`, as it stands.
abbrev pub core_error : {A : Type 0} → Result String A → Result Message A
core_error r = map_err (λ e. lit e ∷ []) r

module _ (p : Parsers) (b : Builds p) where
  open p use {
    F64, Duration, floats, SpanRelation, SocketAddr, PeerEndpoint, parse_span, parse_address,
    parse_endpoint,
  }
  open b use {Loader, Peer, build_loader, build_emitter, build_keyed, build_peer}

  abbrev pub loader_fields : NativeConfiguration F64 → List (Field (LoaderSetting Duration))
  loader_fields c =
      plain c.loader_cache_size cache_size
      ∷ timed floats "loader_seek_timeout" c.loader_seek_timeout seek_timeout
      ∷ plain c.loader_discard_threshold discard_threshold
      ∷ []

  abbrev pub has_loader : NativeConfiguration F64 → Bool
  has_loader c =
      is_some c.loader_cache_size
      || is_some c.loader_seek_timeout
      || is_some c.loader_discard_threshold

  -- The loader is built only if one of its options is given.
  abbrev pub loader_field :
      NativeConfiguration F64 → Field (ConsumerSetting Duration SpanRelation Loader)
  loader_field c =
      if has_loader c
      then some (
          apply_fields (loader_fields c) >>= λ settings.
          core_error (build_loader settings) >>= λ l. ok (loader l))
      else none

  abbrev pub span_fields :
      NativeConfiguration F64 → List (Field (ConsumerSetting Duration SpanRelation Loader))
  span_fields c =
      checked c.message_spans
        (λ s. under "message_spans" (parse_span s) >>= λ r. ok (message_spans r))
      ∷ checked c.timer_spans (λ s. under "timer_spans" (parse_span s) >>= λ r. ok (timer_spans r))
      ∷ loader_field c
      ∷ []

  abbrev pub peer_fields :
      NativeConfiguration F64 → List (Field (PeerSetting Duration SocketAddr PeerEndpoint))
  peer_fields c =
      checked c.peer_bind_address
        (λ s. under "peer_bind_address" (parse_address s) >>= λ a. ok (bind_address a))
      ∷ checked c.peer_advertised_connect (λ s.
        under "peer_advertised_connect" (parse_endpoint s) >>= λ e. ok (advertised_connect e))
      ∷ plain c.peer_network_name network_name
      ∷ plain c.peer_cache_capacity peer_cache_capacity
      ∷ timed floats "peer_registration_ttl" c.peer_registration_ttl registration_ttl
      ∷ []

  unfoldable pub build_peer_config : NativeConfiguration F64 → Result Message Peer
  build_peer_config c =
      apply_fields (peer_fields c) >>= λ settings. core_error (build_peer settings)

  unfoldable pub consumer_builders : NativeConfiguration F64 → Result Message (ConsumerBuilders p b)
  unfolding build_peer_config consumer_builder retry_builder failure_topic_builder scheduler_builder
      monopolization_builder defer_builder timeout_builder deduplication_builder emitter_builder
      build_keyed_state_config
  consumer_builders c = do
    first ← consumer_builder p c
    added ← apply_fields (span_fields c)
    retry ← retry_builder p c
    scheduler ← scheduler_builder p c
    monopolization ← monopolization_builder p c
    defer ← defer_builder p c
    timeout ← timeout_builder p c
    dedup ← deduplication_builder p c
    emitter_settings ← emitter_builder p c
    emitter ← core_error (build_emitter emitter_settings)
    keyed_state ← build_keyed_state_config p build_keyed c
    peer ← build_peer_config c
    ok (record {
      consumer = first ++ added;
      retry = retry;
      failure_topic = failure_topic_builder p c;
      scheduler = scheduler;
      monopolization = monopolization;
      defer = defer;
      timeout = timeout;
      dedup = dedup;
      emitter = emitter;
      keyed_state = keyed_state;
      peer = peer;
    })
