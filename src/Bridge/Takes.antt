-- ===== src/Bridge/Takes.antt =====
-- How many commands one poll takes.
use mathlib.Core.List.{flatten}
use prosody_rb.Base.{
  ℕ, zero, suc, ◌≤◌, ◌≡◌, true, List, [], ◌∷◌, ◌++◌, Result, ok, err, length, length-append, arith,
}
use prosody_rb.Bridge.{
  BridgeError, poll_batch_size, Wake, ready, interrupted, crashed, Polled, Progress, blocked, done,
  next_arrivals, later_arrivals, try_recv, drain, receive_batch, poll,
}

module _ {F : Type 0} where
  -- A drain takes as many commands as it has room for and finds in the queue, or more.
  drain-length_ge :
      (room n : ℕ) (queue : List F) (arrivals : List (List F))
      → n ≤ room
      → n ≤ length queue
      → n ≤ length (drain room queue arrivals).0
  unfolding drain
  drain-length_ge room zero queue arrivals h g = omega arith
  drain-length_ge zero (suc n) queue arrivals h g = absurd (omega arith)
  drain-length_ge (suc room) (suc n) [] arrivals h g = absurd (omega arith)
  drain-length_ge (suc room) (suc n) (first ∷ rest) arrivals h g =
      let more = rest ++ next_arrivals arrivals in
      omega (
        arith,
        drain-length_ge room n more (later_arrivals arrivals) (omega arith)
            (omega (arith, length-append rest (next_arrivals arrivals))),
      )

  later-length :
      (arrivals : List (List F))
      → length (flatten (later_arrivals arrivals)) ≤ length (flatten arrivals)
  unfolding flatten
  later-length [] = omega arith
  later-length (a ∷ rest) = omega (arith, length-append a (flatten rest))

  try_recv-arrivals :
      (more : List F → List F × List F × List (List F)) (later : List (List F)) (queue : List F)
      → ((rest : List F) → length (flatten (more rest).2) ≤ length (flatten later))
      → length (flatten (try_recv more later queue).2) ≤ length (flatten later)
  try_recv-arrivals more later [] h = omega arith
  try_recv-arrivals more later (command ∷ rest) h = h rest

  drain-arrivals :
      (room : ℕ) (queue : List F) (arrivals : List (List F))
      → length (flatten (drain room queue arrivals).2) ≤ length (flatten arrivals)
  unfolding drain
  drain-arrivals zero queue arrivals = omega arith
  drain-arrivals (suc room) queue arrivals = omega (
    arith,
    later-length arrivals,
    try_recv-arrivals (λ rest. drain room rest (later_arrivals arrivals)) (later_arrivals arrivals)
        (queue ++ next_arrivals arrivals)
        (λ rest. drain-arrivals room rest (later_arrivals arrivals)),
  )

  -- A poll that takes `n` commands at least and adds none to the arrivals.
  abbrev pub Took : ℕ → ℕ → Result BridgeError (List F) → List (List F) → Type 0
  Took n m (ok commands) arrivals = (n ≤ length commands) × (length (flatten arrivals) ≤ m)
  Took n m (err e) arrivals = ⊥

  abbrev pub Takes : ℕ → ℕ → Progress (Polled F) → Type 0
  Takes n m blocked = n ≡ 0
  Takes n m (done p) = Took n m p.taken p.arrivals

  receive_batch-Takes :
      (n : ℕ) (queue : List F) (arrivals : List (List F))
      → n ≤ poll_batch_size
      → n ≤ length queue
      → Takes n (length (flatten arrivals)) (receive_batch true queue arrivals)
  unfolding receive_batch
  receive_batch-Takes n [] arrivals h g = omega arith
  receive_batch-Takes zero (first ∷ rest) arrivals h g =
      (omega arith, drain-arrivals 15 rest arrivals)
  receive_batch-Takes (suc n) (first ∷ rest) arrivals h g = (
    omega (arith, drain-length_ge 15 n rest arrivals (omega arith) (omega arith)),
    drain-arrivals 15 rest arrivals,
  )

  pub Takes-weaken : (n m m' : ℕ) (p : Progress (Polled F)) → m ≤ m' → Takes n m p → Takes n m' p
  Takes-weaken n m m' blocked h t = t
  Takes-weaken n m m' (done p) h t = weaken p.taken t
    where
      weaken : (r : Result BridgeError (List F)) → Took n m r p.arrivals → Took n m' r p.arrivals
      weaken (ok commands) t = (t.0, omega arith)
      weaken (err e) t = t

  pub poll-Takes :
      (n : ℕ) (queue : List F) (arrivals : List (List F))
      → n ≤ poll_batch_size
      → n ≤ length queue
      → Takes n
          (length (flatten arrivals))
          (poll ready (record { queue = queue; connected = true }) arrivals)
  unfolding poll
  poll-Takes n queue arrivals h g = Takes-weaken n _ _ _ (later-length arrivals) (
      receive_batch-Takes n (queue ++ next_arrivals arrivals) (later_arrivals arrivals) h
        (omega (arith, length-append queue (next_arrivals arrivals))))

-- How many of the wakes are polls that go on.
abbrev pub ready_count : List Wake → ℕ
ready_count [] = 0
ready_count (ready ∷ wakes) = suc (ready_count wakes)
ready_count (interrupted ∷ wakes) = ready_count wakes
ready_count (crashed ∷ wakes) = ready_count wakes
