-- ===== src/Client/Start.antt =====
-- `Client::new` of ext/prosody/src/client/mod.rs, with `shutdown` of client/support.rs. The statics of
-- the extension are part of the world: the bridge is there or not. `deserialize` of the crate
-- `serde_magnus` and `new_erased` of the core are parameters.
mod Tests
pub mod Valid
use prosody_rb.Base.{
  String, Bool, Option, none, some, List, [], ◌∷◌, Result, ok, err, if◌then◌else◌,
}
use prosody_rb.Ruby.{Value, Error, Message, new, argument_error, runtime_error, lit}
use prosody_rb.Ruby.Effects.{M, ◌>>=◌, ◌>>◌, and_then, pure, lift}
use prosody_rb.Ruby.Vm.{Vm}
use prosody_rb.Util.ForkGuard.{ForkGuard, create}
use prosody_rb.Client.Calls.{core_error}
use prosody_rb.Client.Config.Core.{Parsers}
use prosody_rb.Client.Config.Native.{NativeConfiguration}
use prosody_rb.Client.Config.Connections.{
  ProducerSetting, CassandraSetting, producer_builder, cassandra_builder,
}
use prosody_rb.Client.Config.Consumers.{
  Mode, parse_mode, Builds, ConsumerBuilders, consumer_builders,
}

-- What `new` uses of Ruby, of the extension's statics and of the core. `Core` is the client of the
-- core, with its shared shutdown.
pub record Starting (p : Parsers) (b : Builds p) (W : Type 0) : Type 1 where
  pub Core : Type 0
  pub require_opentelemetry : M W (Unit {0})
  pub ensure_runtime : W → W
  pub has_bridge : W → Bool
  pub is_kind_of : Value → Value → W → Bool
  pub deserialize : Value → W → Result Error (NativeConfiguration p.F64)
  pub default_mode : Mode
  pub wait_new_erased :
      Mode
      → List (ProducerSetting p.Duration)
      → ConsumerBuilders p b
      → List (CassandraSetting p.Duration)
      → M W (Result String Core)

-- Of the fields of `Client`, those that the model tells apart. The shutdown is the core's.
pub record Client (Core : Type 0) : Type 0 where
  pub inner : Core
  pub fork : ForkGuard

abbrev pub no_bridge : Error
no_bridge = new runtime_error (lit "Bridge not initialized" ∷ [])

module _ {W : Type 0} (vm : Vm W) (p : Parsers) (b : Builds p) (s : Starting p b W) where
  open s use {
    Core, require_opentelemetry, ensure_runtime, has_bridge, is_kind_of, deserialize, default_mode,
    wait_new_erased,
  }

  abbrev pub arg_error : {A : Type 0} → Result Message A → M W A
  arg_error (ok a) = pure a
  arg_error (err error) = lift (err (new argument_error error))

  abbrev pub core_result : {A : Type 0} → Result String A → M W A
  core_result (ok a) = pure a
  core_result (err error) = lift (err (core_error error))

  abbrev pub entered : M W (Unit {0})
  entered w = (ok tt, ensure_runtime w)

  -- `BRIDGE.get().ok_or(…)?`
  abbrev pub bridge : M W (Unit {0})
  bridge w = (if has_bridge w then ok tt else err no_bridge, w)

  -- A `Configuration`, or one made from the argument.
  unfoldable pub config_object : Value → M W Value
  config_object config = vm.const_get vm.root_module "Configuration" >>= λ class. λ w.
      if is_kind_of config class w then (ok config, w) else vm.funcall class "new" (config ∷ []) w

  unfoldable pub native_config : Value → M W (NativeConfiguration p.F64)
  unfolding config_object
  native_config config = do
    object' ← config_object config
    hash ← vm.funcall object' "to_hash" []
    λ w. (deserialize hash w, w)

  -- What the core is started with.
  abbrev pub Settings : Type 0
  Settings =
      Mode
      × List (ProducerSetting p.Duration)
      × ConsumerBuilders p b
      × List (CassandraSetting p.Duration)

  unfoldable pub settings : NativeConfiguration p.F64 → M W Settings
  unfolding parse_mode consumer_builders cassandra_builder producer_builder
  settings config = do
    mode ← arg_error (parse_mode default_mode config.mode)
    consumers ← arg_error (consumer_builders p b config)
    bridge
    cassandra ← arg_error (cassandra_builder p config)
    producer ← arg_error (producer_builder p config)
    pure (mode, producer, consumers, cassandra)

  unfoldable pub start : Settings → M W (Client Core)
  unfolding create
  start (mode, producer, consumers, cassandra) = do
    reply ← wait_new_erased mode producer consumers cassandra
    client ← core_result reply
    λ w. (ok (record { inner = client; fork = create (vm.process_id w) "Prosody::Client" }), w)

  unfoldable pub new_client : Value → M W (Client Core)
  unfolding native_config settings start
  new_client config = do
    require_opentelemetry
    entered
    native ← native_config config
    chosen ← settings native
    start chosen
