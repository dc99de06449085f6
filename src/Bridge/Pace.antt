-- ===== src/Bridge/Pace.antt =====
-- How far the loop of the Ruby thread gets with a number of polls.
use native.Mathlib.Decide.{dec_lt}
use mathlib.Core.List.{flatten}
use prosody_rb.Base.{
  ℕ, ◌+◌, ◌-◌, ◌*◌, ◌≤◌, ◌≡◌, ap, sym, subst, true, List, [], ◌∷◌, ◌++◌, Result, ok, err, length,
  length-append, arith, if◌then◌else◌,
}
use prosody_rb.Bridge.{
  BridgeError, poll_batch_size, Wake, ready, interrupted, crashed, Polled, Progress, blocked, done,
  poll, Thread, returns, settle, after_poll, round, loop,
}
use prosody_rb.Bridge.Fair.{IsFair, poll-IsFair, commands_of}
use prosody_rb.Bridge.Batch.{run_batch-returns}
use prosody_rb.Bridge.Order.{pending, loop-InOrder}
use prosody_rb.Bridge.Takes.{Takes, Took, poll-Takes, ready_count}

module _ {F W : Type 0} (run_command : F → W → W) where
  -- From `t` to `u` at least `n` commands leave the ones that are pending, and the loop goes on.
  record Gains (n : ℕ) (t u : Thread F W) : Type 0 where
    fewer : length (pending (returns run_command) u) + n ≤ length (pending (returns run_command) t)
    arrived : length (flatten u.arrivals) ≤ length (flatten t.arrivals)
    running : u.running ≡ true
    connected : u.channel.connected ≡ true

  settle-Gains :
      (n : ℕ) (t : Thread F W) (taken : Result BridgeError (List F)) (queue : List F)
      (arrivals : List (List F))
      → t.running ≡ true
      → t.channel.connected ≡ true
      → commands_of taken ++ (queue ++ flatten arrivals) ≡ pending (returns run_command) t
      → Took n (length (flatten t.arrivals)) taken arrivals
      → Gains n t (
          settle (returns run_command) taken (record t {
            channel = record { queue = queue; connected = t.channel.connected };
            arrivals = arrivals;
          }))
  unfolding settle
  settle-Gains n t (ok commands) queue arrivals on up same took =
      rw (run_batch-returns run_command commands t.world) (record {
        fewer =
            omega
              (arith, ap length same, length-append commands (queue ++ flatten arrivals), took.0);
        arrived = took.1;
        running = on;
        connected = up;
      })
  settle-Gains n t (err e) queue arrivals on up same took = absurd took

  after_poll-Gains :
      (n : ℕ) (t : Thread F W) (p : Progress (Polled F))
      → t.running ≡ true
      → t.channel.connected ≡ true
      → IsFair (pending (returns run_command) t) p
      → Takes n (length (flatten t.arrivals)) p
      → Gains n t (after_poll (returns run_command) t p)
  after_poll-Gains n t blocked on up fair takes = record {
    fewer = omega (arith, takes);
    arrived = omega arith;
    running = on;
    connected = up;
  }
  after_poll-Gains n t (done p) on up fair takes =
      settle-Gains n t p.taken p.queue p.arrivals on up fair.0 takes

  round-Gains :
      (n : ℕ) (t : Thread F W)
      → n ≤ poll_batch_size
      → n ≤ length t.channel.queue
      → t.running ≡ true
      → t.channel.connected ≡ true
      → Gains n t (round (returns run_command) ready t)
  unfolding round
  round-Gains n t small there on up =
      after_poll-Gains n t (poll ready t.channel t.arrivals) on up
        (poll-IsFair ready t.channel t.arrivals)
        (subst
          (λ c.
            Takes n (length (flatten t.arrivals))
              (poll ready (record { queue = t.channel.queue; connected = c }) t.arrivals))
          (sym up) (poll-Takes n t.channel.queue t.arrivals small there))

  loop-length :
      (wakes : List Wake) (t : Thread F W)
      → length (pending (returns run_command) (loop (returns run_command) wakes t))
        ≤ length (pending (returns run_command) t)
  loop-length wakes t =
      let order = (loop-InOrder (returns run_command) wakes t).order in
      let executed = (loop-InOrder (returns run_command) wakes t).executed in
      let lost = (loop-InOrder (returns run_command) wakes t).lost in
      let left = pending (returns run_command) (loop (returns run_command) wakes t) in
      omega (arith, ap length order, length-append executed (lost ++ left), length-append lost left)

  -- A round that gained less than `n` leaves the rest to the later rounds.
  gain_rest :
      (n k l : ℕ) (t u : Thread F W)
      → Gains 16 t u
      → n ≤ 16 + 16 * k
      → n ≤ length t.channel.queue
      → l ≤ length (pending (returns run_command) u)
      → ((n' : ℕ)
          → n' ≤ 16 * k
          → n' ≤ length u.channel.queue
          → l + n' ≤ length (pending (returns run_command) u))
      → l + n ≤ length (pending (returns run_command) t)
  gain_rest n k l t u gains h g mono later =
      let gained =
        length (pending (returns run_command) t) - length (pending (returns run_command) u) in
      elim (dec_lt gained n) [
        | no enough ↦ omega (arith, gains.fewer, mono)
        | yes less ↦ omega (
          arith,
          gains.fewer,
          later (n - gained) (omega (arith, gains.fewer)) (
              omega (
                arith,
                gains.fewer,
                gains.arrived,
                length-append t.channel.queue (flatten t.arrivals),
                length-append u.channel.queue (flatten u.arrivals),
              )),
        )
      ]

  loop-round :
      (wake : Wake) (wakes : List Wake) (t : Thread F W)
      → t.running ≡ true
      → loop (returns run_command) (wake ∷ wakes) t
        ≡ loop (returns run_command) wakes (round (returns run_command) wake t)
  unfolding loop
  loop-round wake wakes t on =
      ap
        (λ b.
          loop (returns run_command) wakes (if b then round (returns run_command) wake t else t))
        on

  -- While senders live, the loop takes `n` commands from the queue once there were enough polls.
  pub loop-fewer :
      (wakes : List Wake) (n : ℕ) (t : Thread F W)
      → n ≤ poll_batch_size * ready_count wakes
      → n ≤ length t.channel.queue
      → t.running ≡ true
      → t.channel.connected ≡ true
      → length (pending (returns run_command) (loop (returns run_command) wakes t)) + n
        ≤ length (pending (returns run_command) t)
  unfolding loop
  loop-fewer [] n t h g on up = omega arith
  loop-fewer (interrupted ∷ wakes) n t h g on up =
      rw (loop-round interrupted wakes t on)
        (unfold round settle poll in loop-fewer wakes n t h g on up)
  loop-fewer (crashed ∷ wakes) n t h g on up =
      rw (loop-round crashed wakes t on)
        (unfold round settle poll in loop-fewer wakes n t h g on up)
  loop-fewer (ready ∷ wakes) n t h g on up =
      let u = round (returns run_command) ready t in
      rw (loop-round ready wakes t on) (elim (dec_lt n 17) [
        | yes small ↦
            omega (arith, (round-Gains n t (omega arith) g on up).fewer, loop-length wakes u)
        | no large ↦
            let gains = round-Gains 16 t (omega arith) (omega arith) on up in
            gain_rest n (ready_count wakes) _ t u gains (omega arith) g (loop-length wakes u)
              (λ n' h' g'. loop-fewer wakes n' u h' g' gains.running gains.connected)
      ])
