-- ===== src/Util/Runtime.antt =====
-- The runtime and the telemetry of ext/prosody/src/util.rs. The statics `BRIDGE` and `TRACING_INIT`
-- of ext/prosody/src/lib.rs are cells that are filled once. Making a bridge or a logger, entering
-- the runtime, the tracing set-up and its end are parameters.
mod Tests
pub mod Once
use prosody_rb.Base.{
  String, Bool, true, false, not, Option, none, some, [], ◌∷◌, Result, ok, err, if◌then◌else◌,
}
use prosody_rb.Ruby.{Value, Error, new, runtime_error, lit}
use prosody_rb.Ruby.Effects.{M, Eff}

-- Everything outside, with the two statics.
pub record Globals (B W : Type 0) : Type 0 where
  pub world : W
  pub bridge : Option B
  pub tracing_init : Bool

-- What the set-up calls. Errors are their texts.
pub record Runtime (B L W : Type 0) : Type 0 where
  pub has_current : W → Bool
  pub enter : W → W
  pub new_bridge : W → B × W
  pub new_logger : B → W → Result String L × W
  pub initialize_tracing : Option L → W → Result String (Unit {0}) × W
  pub report : String → W → W

module _ {B L W : Type 0} (r : Runtime B L W) where
  -- `OnceLock::get_or_init` of `BRIDGE`.
  abbrev pub get_or_init : Globals B W → B × Globals B W
  get_or_init g = elim g.bridge [
    | some b ↦ (b, g)
    | none ↦
        let (b, w) = r.new_bridge g.world in
        (b, record { world = w; bridge = some b; tracing_init = g.tracing_init })
  ]

  -- `inspect_err`, then `ok`.
  abbrev pub maybe_logger : Result String L × W → Option L × W
  maybe_logger (ok logger, w) = (some logger, w)
  maybe_logger (err error, w) = (none, r.report error w)

  abbrev pub reported : Result String (Unit {0}) × W → W
  reported (ok _, w) = w
  reported (err error, w) = r.report error w

  -- The initializer of `TRACING_INIT`.
  unfoldable pub start_tracing : B → W → W
  start_tracing b w =
      let (logger, w1) = maybe_logger (r.new_logger b w) in
      reported (r.initialize_tracing logger w1)

  -- `true` for a guard: the runtime was entered here.
  unfoldable pub ensure_runtime_context : Globals B W → Bool × Globals B W
  unfolding start_tracing
  ensure_runtime_context g =
      let outside = not (r.has_current g.world) in
      let entered = record g { world = if outside then r.enter g.world else g.world } in
      let (b, made) = get_or_init entered in
      (
        outside,
        if made.tracing_init
            then made
            else record made { world = start_tracing b made.world; tracing_init = true },
      )

-- `tracing_error`
unfoldable pub tracing_error : String → Error
tracing_error error = new runtime_error (lit error ∷ [])

module _ {W : Type 0} where
  abbrev raised : {A : Type 0} → Result String A × W → Result Error A × W
  raised (ok a, w) = (ok a, w)
  raised (err error, w) = (err (tracing_error error), w)

  unfoldable pub flush_telemetry : (W → Result String (Unit {0}) × W) → M W (Unit {0})
  unfolding tracing_error
  flush_telemetry core_flush_telemetry w = raised (core_flush_telemetry w)

  unfoldable pub shutdown_telemetry : (W → Result String (Unit {0}) × W) → M W (Unit {0})
  unfolding tracing_error
  shutdown_telemetry core_shutdown_telemetry w = raised (core_shutdown_telemetry w)

  -- The block that `register_shutdown_at_exit` gives to Ruby: an error is logged, not raised.
  unfoldable pub at_exit_block : (W → Result String (Unit {0}) × W) → (String → W → W) → W → W
  at_exit_block core_shutdown_telemetry log w =
      let (result, w') = core_shutdown_telemetry w in
      elim result [ ok _ ↦ w' | err error ↦ log error w' ]
