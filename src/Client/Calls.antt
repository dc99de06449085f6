-- ===== src/Client/Calls.antt =====
-- The methods of `Prosody::Client` in ext/prosody/src/client/mod.rs and client/support.rs. The
-- awaited calls of the core client are parameters, each with the result that the core documents;
-- spans are not modelled.
pub mod Forked
use prosody_rb.Base.{ℕ, Bool, String, Option, none, some, List, [], ◌∷◌, Result, ok, err, map_err}
use prosody_rb.Ruby.{Value, Error, new, runtime_error, lit}
use prosody_rb.Ruby.Effects.{M, ◌>>=◌, ◌>>◌, lift, pure}
use prosody_rb.Ruby.Vm.{Vm, Carrier, extract_opentelemetry_context}
use prosody_rb.Util.ForkGuard.{ForkGuard, check}

-- `ErasedConsumerState` of the core.
pub data ConsumerState : Type 0 where
  shutdown unconfigured configured running : ConsumerState
  configuration_failed : String → ConsumerState

unfoldable pub state_name : ConsumerState → Result Error String
state_name shutdown = ok "shut_down"
state_name unconfigured = ok "unconfigured"
state_name configured = ok "configured"
state_name running = ok "running"
state_name (configuration_failed error) =
    err (new runtime_error (lit "consumer configuration failed: " ∷ lit error ∷ []))

-- `RubyHandler`: of its fields, the handler and Ruby's processor.
pub record RubyHandler : Type 0 where
  pub handler : Value
  pub processor : Value

abbrev pub core_error : String → Error
core_error error = new runtime_error (lit error ∷ [])

-- The core client behind the bridge: `wait_for` of each of its futures. The first error is the
-- bridge's or Ruby's, the second the core's own, as its text. `ensure_runtime` is what
-- `ensure_runtime_context` (`Util.Runtime`) does.
pub record CoreClient (W : Type 0) : Type 1 where
  pub ensure_runtime : W → W
  pub Json : Type 0
  pub deserialize : Value → Result Error Json
  pub wait_consumer_state : M W ConsumerState
  pub wait_send : Carrier → String → String → Json → M W (Result String (Unit {0}))
  pub wait_excise : Carrier → String → String → M W (Result String (Unit {0}))
  pub wait_subscribe : RubyHandler → M W (Result String (Unit {0}))
  pub wait_unsubscribe : M W (Result String (Unit {0}))
  pub wait_shutdown : M W (Result String (Unit {0}))
  pub wait_partition_count : M W ℕ
  pub wait_is_stalled : M W Bool

module _ {W : Type 0} (vm : Vm W) where
  open vm use {root_module, const_get, funcall, new_instance, process_id}

  unfoldable pub validate_handler : Value → M W (Unit {0})
  validate_handler handler = do
    event_handler ← const_get root_module "EventHandler"
    funcall event_handler "validate_handler!" (handler ∷ [])
    pure tt

  -- `RubyProcessor::new`: Ruby's processor, started.
  unfoldable pub start_processor : M W Value
  start_processor = do
    logger ← funcall root_module "logger" []
    class ← const_get root_module "AsyncTaskProcessor"
    instance ← new_instance class (logger ∷ [])
    funcall instance "start" []
    pure instance

  -- `RubyHandler::new`, with `Scheduler::new`.
  unfoldable pub new_handler : Value → M W RubyHandler
  unfolding start_processor
  new_handler handler = do
    processor ← start_processor
    pure (record { handler = handler; processor = processor })

  -- `this.fork.check(ruby)?`
  unfoldable pub check_fork : ForkGuard → M W (Unit {0})
  check_fork fork w = (check fork (process_id w), w)

  -- `ensure_runtime_context`, whose guard lives to the end of the method.
  abbrev pub entered : (W → W) → M W (Unit {0})
  entered ensure_runtime w = (ok tt, ensure_runtime w)

  module _ (core : CoreClient W) (fork : ForkGuard) where
    open core use {
      ensure_runtime, Json, deserialize, wait_consumer_state, wait_send, wait_excise,
      wait_subscribe, wait_unsubscribe, wait_shutdown, wait_partition_count, wait_is_stalled,
    }

    unfoldable pub consumer_state : M W String
    unfolding check_fork
    consumer_state = do check_fork fork; state ← wait_consumer_state; lift (state_name state)

    unfoldable pub send : String → String → Value → M W (Unit {0})
    unfolding check_fork
    send topic key payload = do
      check_fork fork
      entered ensure_runtime
      value ← lift (deserialize payload)
      context ← extract_opentelemetry_context vm
      reply ← wait_send context topic key value
      lift (map_err core_error reply)

    unfoldable pub excise : String → String → M W (Unit {0})
    unfolding check_fork
    excise topic key = do
      check_fork fork
      entered ensure_runtime
      context ← extract_opentelemetry_context vm
      reply ← wait_excise context topic key
      lift (map_err core_error reply)

    unfoldable pub subscribe : Value → M W (Unit {0})
    unfolding check_fork new_handler validate_handler
    subscribe handler = do
      check_fork fork
      entered ensure_runtime
      validate_handler handler
      wrapper ← new_handler handler
      reply ← wait_subscribe wrapper
      lift (map_err core_error reply)

    unfoldable pub assigned_partition_count : M W ℕ
    unfolding check_fork
    assigned_partition_count = check_fork fork >> wait_partition_count

    unfoldable pub is_stalled : M W Bool
    unfolding check_fork
    is_stalled = check_fork fork >> wait_is_stalled

    unfoldable pub unsubscribe : M W (Unit {0})
    unfolding check_fork
    unsubscribe = do
      check_fork fork
      entered ensure_runtime
      reply ← wait_unsubscribe
      lift (map_err core_error reply)

    unfoldable pub shut_down : M W (Unit {0})
    unfolding check_fork
    shut_down = do
      check_fork fork
      entered ensure_runtime
      reply ← wait_shutdown
      lift (map_err core_error reply)
