-- ===== src/Bridge.antt =====
-- ext/prosody/src/bridge/mod.rs: functions sent from Rust threads run on one Ruby thread. The
-- channel is its queue and a flag for live senders. A function is a value of `F`; what it does to the
-- outside, and whether it returns or panics, is a parameter. Other threads may send between any two receives of a poll: the
-- argument `arrivals` lists what they send before each of them.
mod Tests
pub mod Fair
pub mod Batch
pub mod Order
pub mod Drain
pub mod Calls
pub mod Takes
pub mod Pace
pub mod Live
pub mod Waits
use prosody_rb.Base.{
  ℕ, zero, suc, ◌-◌, String, Bool, true, false, List, [], ◌∷◌, ◌++◌, Result, ok, err, if◌then◌else◌,
}
use prosody_rb.Gvl.{GvlError, panicked}

-- `BridgeError`
pub data BridgeError : Type 0 where
  gvl : GvlError → BridgeError
  task_create : String → BridgeError
  task_dropped cancelled shutdown : BridgeError

-- `POLL_BATCH_SIZE`
abbrev pub poll_batch_size : ℕ
poll_batch_size = 16

-- What ends the wait of a poll: the channel is ready, Ruby interrupts the thread, or the wait panics.
-- What the poll function does once the first command is there does not panic.
pub data Wake : Type 0 where
  ready interrupted crashed : Wake

pub record Channel (F : Type 0) : Type 0 where
  pub queue : List F
  -- Some sender is alive.
  pub connected : Bool

-- The result of a poll before its commands run: what it took, what the channel still holds, and
-- the arrivals that are still to come.
pub record Polled (F : Type 0) : Type 0 where
  pub taken : Result BridgeError (List F)
  pub queue : List F
  pub arrivals : List (List F)

-- A poll that cannot go on yet, as the channel is empty and connected.
pub data Progress (A : Type 0) : Type 0 where
  blocked : Progress A
  done : A → Progress A

module _ {F : Type 0} where
  abbrev pub next_arrivals : List (List F) → List F
  next_arrivals [] = []
  next_arrivals (a ∷ rest) = a

  abbrev pub later_arrivals : List (List F) → List (List F)
  later_arrivals [] = []
  later_arrivals (a ∷ rest) = rest

  -- One `try_recv` on a queue: it breaks off when the queue is empty, and goes on with `more`.
  abbrev pub try_recv :
      (List F → List F × List F × List (List F))
      → List (List F)
      → List F
      → List F × List F × List (List F)
  try_recv more later [] = ([], [], later)
  try_recv more later (command ∷ rest) = (command ∷ (more rest).0, (more rest).1, (more rest).2)

  -- The loop over `try_recv`: at most `room` more commands. It gives the commands, what the channel
  -- still holds, and the arrivals still to come.
  unfoldable pub drain : ℕ → List F → List (List F) → List F × List F × List (List F)
  drain zero queue arrivals = ([], queue, arrivals)
  drain (suc room) queue arrivals =
      try_recv (λ rest. drain room rest (later_arrivals arrivals)) (later_arrivals arrivals)
        (queue ++ next_arrivals arrivals)

  -- `poll_fn`, once the channel is ready: the first command by `recv`, the others by `drain`.
  unfoldable pub receive_batch : Bool → List F → List (List F) → Progress (Polled F)
  unfolding drain
  receive_batch connected [] arrivals = elim connected [
    | true ↦ blocked
    | false ↦ done (record { taken = err shutdown; queue = []; arrivals = arrivals })
  ]
  receive_batch connected (first ∷ rest) arrivals =
      let (commands, left, later) = drain (poll_batch_size - 1) rest arrivals in
      done (record { taken = ok (first ∷ commands); queue = left; arrivals = later })

  -- `poll` up to the point where its commands run, for each way in which the wait ends.
  unfoldable pub poll : Wake → Channel F → List (List F) → Progress (Polled F)
  unfolding receive_batch
  poll interrupted c arrivals =
      done (record { taken = err cancelled; queue = c.queue; arrivals = arrivals })
  poll crashed c arrivals =
      done (record { taken = err (gvl panicked); queue = c.queue; arrivals = arrivals })
  poll ready c arrivals =
      receive_batch c.connected (c.queue ++ next_arrivals arrivals) (later_arrivals arrivals)

-- The Ruby thread of `Bridge::new` between two polls.
pub record Thread (F W : Type 0) : Type 0 where
  pub channel : Channel F
  pub arrivals : List (List F)
  pub running : Bool
  pub world : W

-- What commands that all return do, in order.
abbrev pub run_all : {F W : Type 0} → (F → W → W) → List F → W → W
run_all run_command [] w = w
run_all run_command (command ∷ commands) w = run_all run_command commands (run_command command w)

-- Commands that all return.
abbrev pub returns : {F W : Type 0} → (F → W → W) → F → W → W × Bool
returns run_command command w = (run_command command w, true)

-- `true` for a command that returns, `false` for one that panics.
module _ {F W : Type 0} (run_command : F → W → W × Bool) where
  -- A panic unwinds: the commands behind it are dropped.
  abbrev pub go_on : (W → W × Bool) → W × Bool → W × Bool
  go_on rest (w, true) = rest w
  go_on rest (w, false) = (w, false)

  -- The loop at the end of `poll`: each command runs, in order.
  abbrev pub run_batch : List F → W → W × Bool
  run_batch [] w = (w, true)
  run_batch (command ∷ commands) w = go_on (run_batch commands) (run_command command w)

  -- A panic unwinds the thread's loop too.
  abbrev pub after_batch : W × Bool → Thread F W → Thread F W
  after_batch (w, true) t = record t { world = w }
  after_batch (w, false) t = record t { world = w; running = false }

  -- What the thread does with the result of a poll: `Shutdown` ends its loop, and any other error
  -- is logged.
  unfoldable pub settle : Result BridgeError (List F) → Thread F W → Thread F W
  settle (ok commands) t = after_batch (run_batch commands t.world) t
  settle (err shutdown) t = record t { running = false }
  settle (err _) t = t

  abbrev pub after_poll : Thread F W → Progress (Polled F) → Thread F W
  after_poll t blocked = t
  after_poll t (done p) = settle p.taken (record t {
    channel = record { queue = p.queue; connected = t.channel.connected };
    arrivals = p.arrivals;
  })

  unfoldable pub round : Wake → Thread F W → Thread F W
  unfolding settle poll
  round wake t = after_poll t (poll wake t.channel t.arrivals)

  -- The loop of the thread over the wakes that it sees.
  unfoldable pub loop : List Wake → Thread F W → Thread F W
  unfolding round
  loop [] t = t
  loop (wake ∷ wakes) t = loop wakes (if t.running then round wake t else t)

-- `Bridge::send` and the sending half of `Bridge::run`: the queue is unbounded, and a send fails
-- only when the receiver is gone.
unfoldable pub send : {F : Type 0} → Bool → F → Channel F → Result BridgeError (Channel F)
send receiver_alive function c =
    if receiver_alive
    then ok (record { queue = c.queue ++ (function ∷ []); connected = c.connected })
    else err shutdown
