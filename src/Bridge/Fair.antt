-- ===== src/Bridge/Fair.antt =====
-- A poll loses no command and keeps their order.
use mathlib.Core.List.{append_assoc, append-nil, flatten}
use prosody_rb.Base.{
  ℕ, zero, suc, ◌≤◌, ◌≡◌, refl, ap, subst, ◌∙◌, Bool, true, false, List, [], ◌∷◌, ◌++◌, Result, ok,
  err, length, arith,
}
use prosody_rb.Bridge.{
  BridgeError, poll_batch_size, Wake, ready, interrupted, crashed, Channel, Polled, Progress,
  blocked, done, next_arrivals, later_arrivals, try_recv, drain, receive_batch, poll,
}

module _ {F : Type 0} where
  flatten-arrivals :
      (queue : List F) (arrivals : List (List F))
      → (queue ++ next_arrivals arrivals) ++ flatten (later_arrivals arrivals)
        ≡ queue ++ flatten arrivals
  unfolding flatten
  flatten-arrivals queue [] = append-nil (queue ++ []) ∙ refl
  flatten-arrivals queue (a ∷ rest) = append_assoc queue a (flatten rest)

  -- What a drain took, left, and has still to come makes up `all`.
  abbrev Conserves : List F → List F × List F × List (List F) → Type 0
  Conserves all (commands, left, later) = commands ++ (left ++ flatten later) ≡ all

  try_recv-Conserves :
      (more : List F → List F × List F × List (List F)) (later : List (List F)) (queue : List F)
      → ((rest : List F) → Conserves (rest ++ flatten later) (more rest))
      → Conserves (queue ++ flatten later) (try_recv more later queue)
  try_recv-Conserves more later [] h = refl
  try_recv-Conserves more later (command ∷ rest) h = ap (λ l. command ∷ l) (h rest)

  drain-Conserves :
      (room : ℕ) (queue : List F) (arrivals : List (List F))
      → Conserves (queue ++ flatten arrivals) (drain room queue arrivals)
  unfolding drain
  drain-Conserves zero queue arrivals = refl
  drain-Conserves (suc room) queue arrivals =
      try_recv-Conserves (λ rest. drain room rest (later_arrivals arrivals))
        (later_arrivals arrivals) (queue ++ next_arrivals arrivals)
        (λ rest. drain-Conserves room rest (later_arrivals arrivals))
      ∙ flatten-arrivals queue arrivals

  try_recv-length :
      (more : List F → List F × List F × List (List F)) (later : List (List F)) (queue : List F)
      (room : ℕ)
      → ((rest : List F) → length (more rest).0 ≤ room)
      → length (try_recv more later queue).0 ≤ suc room
  try_recv-length more later [] room h = omega arith
  try_recv-length more later (command ∷ rest) room h = omega (arith, h rest)

  drain-length :
      (room : ℕ) (queue : List F) (arrivals : List (List F))
      → length (drain room queue arrivals).0 ≤ room
  unfolding drain
  drain-length zero queue arrivals = omega arith
  drain-length (suc room) queue arrivals =
      try_recv-length (λ rest. drain room rest (later_arrivals arrivals)) (later_arrivals arrivals)
        (queue ++ next_arrivals arrivals) room
        (λ rest. drain-length room rest (later_arrivals arrivals))

  abbrev pub commands_of : Result BridgeError (List F) → List F
  commands_of (ok commands) = commands
  commands_of (err e) = []

  -- What a poll took, what it left in the channel, and what is still to come make up `all`, and it
  -- took at most a batch.
  abbrev pub IsFair : List F → Progress (Polled F) → Type 0
  IsFair all blocked = Unit
  IsFair all (done p) =
      (commands_of p.taken ++ (p.queue ++ flatten p.arrivals) ≡ all)
      × (length (commands_of p.taken) ≤ poll_batch_size)

  receive_batch-IsFair :
      (connected : Bool) (queue : List F) (arrivals : List (List F))
      → IsFair (queue ++ flatten arrivals) (receive_batch connected queue arrivals)
  unfolding receive_batch
  receive_batch-IsFair true [] arrivals = tt
  receive_batch-IsFair false [] arrivals = (refl, omega arith)
  receive_batch-IsFair connected (first ∷ rest) arrivals = (
    ap (λ l. first ∷ l) (drain-Conserves 15 rest arrivals),
    omega (arith, drain-length 15 rest arrivals),
  )

  -- However a poll ends, the commands that it took, at most sixteen, then those left in the channel
  -- and those still to come are all the commands there were, in order; a poll that ends in an
  -- error has taken none.
  pub poll-IsFair :
      (wake : Wake) (c : Channel F) (arrivals : List (List F))
      → IsFair (c.queue ++ flatten arrivals) (poll wake c arrivals)
  unfolding poll
  poll-IsFair interrupted c arrivals = (refl, omega arith)
  poll-IsFair crashed c arrivals = (refl, omega arith)
  poll-IsFair ready c arrivals =
      subst (λ all. IsFair all (poll ready c arrivals)) (flatten-arrivals c.queue arrivals)
        (receive_batch-IsFair c.connected (c.queue ++ next_arrivals arrivals)
          (later_arrivals arrivals))
