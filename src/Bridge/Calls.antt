-- ===== src/Bridge/Calls.antt =====
-- `Bridge::run` of ext/prosody/src/bridge/mod.rs: a function runs on the Ruby thread, and its result
-- comes back over a one-shot channel of its own. A one-shot channel is a number, and what was sent on
-- such channels is a list, in order.
use prosody_rb.Base.{
  ℕ, Bool, Option, none, some, List, [], ◌∷◌, ◌++◌, Result, ok, err, ◌==◌, if◌then◌else◌,
}
use prosody_rb.Bridge.{BridgeError, shutdown, Channel, Progress, blocked, done, send}

-- A function with the sending half of its channel, as `run` wraps it.
pub record Command (W T : Type 0) : Type 0 where
  pub function : W → T × W
  pub result_tx : ℕ

-- The outside of the Ruby thread, and the results sent.
pub record Replied (W T : Type 0) : Type 0 where
  pub world : W
  pub replies : List (ℕ × T)

module _ {W T : Type 0} where
  -- The wrapped function: run, then send the result.
  unfoldable pub run_wrapped : Command W T → Replied W T → Replied W T
  run_wrapped c r =
      let (result, w) = c.function r.world in
      record { world = w; replies = r.replies ++ ((c.result_tx, result) ∷ []) }

  -- The first half of `run`: the wrapped function is sent.
  unfoldable pub run_send :
      Bool → Command W T → Channel (Command W T) → Result BridgeError (Channel (Command W T))
  unfolding send
  run_send receiver_alive c channel = send receiver_alive c channel

module _ {T : Type 0} where
  -- What lies in a channel.
  unfoldable pub reply_on : ℕ → List (ℕ × T) → Option T
  reply_on channel [] = none
  reply_on channel ((n, t) ∷ replies) = if n == channel then some t else reply_on channel replies

  -- The second half: the result is awaited. It never comes if the function was dropped unrun.
  unfoldable pub run_await : Bool → ℕ → List (ℕ × T) → Progress (Result BridgeError T)
  run_await dropped channel replies = elim (reply_on channel replies) [
    | some t ↦ done (ok t)
    | none ↦ if dropped then done (err shutdown) else blocked
  ]
