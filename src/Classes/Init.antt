-- ===== src/Classes/Init.antt =====
-- `init` of ext/prosody/src/handler/mod.rs, of util.rs with `register_shutdown_at_exit`, and the
-- entry point, `entry::init` of lib.rs.
use prosody_rb.Base.{pos}
use prosody_rb.Ruby.Effects.{M, ◌>>=◌, ◌>>◌, pure}
use prosody_rb.Classes.{method, Definer}
use prosody_rb.Classes.State.{register}
use prosody_rb.Classes.Native.{
  admin_init, bridge_init, context_init, message_init, trigger_init, published_init, client_init,
}

module _ {W : Type 0} (rb : Definer W) where
  unfoldable pub handler_init : M W (Unit {0})
  unfolding context_init message_init register trigger_init
  handler_init = do context_init rb; message_init rb; register rb; trigger_init rb

  unfoldable pub register_shutdown_at_exit : M W (Unit {0})
  register_shutdown_at_exit = do hook ← rb.at_exit; pure tt

  unfoldable pub util_init : M W (Unit {0})
  unfolding register_shutdown_at_exit
  util_init = do
    rb.define_module_function (method "flush_telemetry" "flush_telemetry" (pos 0))
    rb.define_module_function (method "shutdown_telemetry" "shutdown_telemetry" (pos 0))
    register_shutdown_at_exit

  -- `entry::init`
  unfoldable pub init : M W (Unit {0})
  unfolding admin_init bridge_init handler_init published_init client_init util_init
  init = do
    admin_init rb
    bridge_init rb
    handler_init
    published_init rb
    client_init rb
    util_init
