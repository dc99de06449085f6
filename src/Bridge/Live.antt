-- ===== src/Bridge/Live.antt =====
-- Every function that is sent is run after enough polls, and its caller gets its result.
use mathlib.Core.List.{append_assoc, append-nil, flatten}
use prosody_rb.Base.{
  ℕ, suc, ◌*◌, ◌≤◌, ◌≡◌, refl, ap, sym, ◌∙◌, true, false, none, some, List, [], ◌∷◌, ◌++◌, ok,
  length, length-append, arith, ok-injective,
}
use prosody_rb.Bridge.{poll_batch_size, Wake, Channel, done, Thread, run_all, returns, loop, send}
use prosody_rb.Bridge.Calls.{Command, Replied, run_wrapped, run_send, run_await, reply_on}
use prosody_rb.Bridge.Batch.{run_all-append}
use prosody_rb.Bridge.Order.{pending, loop-InOrder, returns-lost}
use prosody_rb.Bridge.Pace.{loop-fewer}
use prosody_rb.Bridge.Takes.{ready_count}

module _ {F : Type 0} where
  -- A front that reaches past `xs ++ (x ∷ [])` begins with it.
  front_split :
      (xs : List F) (x : F) (front back rest : List F)
      → suc (length xs) ≤ length front
      → front ++ back ≡ xs ++ (x ∷ rest)
      → (more : List F) × (front ≡ xs ++ (x ∷ more))
  front_split [] x [] back rest h e = absurd (omega arith)
  front_split [] x (y ∷ front) back rest h e = (front, cc)
  front_split (z ∷ xs) x [] back rest h e = absurd (omega arith)
  front_split (z ∷ xs) x (y ∷ front) back rest h e =
      let (more, same) = front_split xs x front back rest (omega arith) cc in (more, cc)

module _ {T : Type 0} where
  reply_on-append :
      (channel : ℕ) (t : T) (before after : List (ℕ × T))
      → reply_on channel before ≡ none
      → reply_on channel (before ++ ((channel, t) ∷ after)) ≡ some t
  unfolding reply_on
  reply_on-append channel t [] after h = ground arith
  reply_on-append channel t ((n, r) ∷ before) after h =
      ground (arith, reply_on-append channel t before after)

module _ {W T : Type 0} where
  -- Running more commands only adds replies.
  run_all-replies :
      (commands : List (Command W T)) (r : Replied W T)
      → (more : List (ℕ × T)) × ((run_all run_wrapped commands r).replies ≡ r.replies ++ more)
  unfolding run_wrapped
  run_all-replies [] r = ([], sym (append-nil r.replies))
  run_all-replies (c ∷ commands) r =
      let (more, e) = run_all-replies commands (run_wrapped c r) in
      ((c.result_tx, (c.function r.world).0) ∷ more, e ∙ append_assoc r.replies _ more)

  -- The replies once the first commands are run up to `c`.
  answer :
      (before more : List (Command W T)) (c : Command W T) (r : Replied W T)
      → reply_on c.result_tx (run_all run_wrapped before r).replies ≡ none
      → reply_on c.result_tx (run_all run_wrapped (before ++ (c ∷ more)) r).replies
        ≡ some (c.function (run_all run_wrapped before r).world).0
  unfolding run_wrapped
  answer before more c r fresh =
      let s = run_all run_wrapped before r in
      let result = (c.function s.world).0 in
      let (extra, e) = run_all-replies more (run_wrapped c s) in
      ap (λ x. reply_on c.result_tx x.replies) (run_all-append run_wrapped before (c ∷ more) r)
      ∙ ap (reply_on c.result_tx) (e ∙ append_assoc s.replies ((c.result_tx, result) ∷ []) extra)
      ∙ reply_on-append c.result_tx result s.replies extra fresh

  -- The loop runs the commands up to the last one in the queue.
  executed_split :
      (wakes : List Wake) (before : List (Command W T)) (c : Command W T)
      (t : Thread (Command W T) (Replied W T))
      → t.channel.queue ≡ before ++ (c ∷ [])
      → t.running ≡ true
      → t.channel.connected ≡ true
      → suc (length before) ≤ poll_batch_size * ready_count wakes
      → (more : List (Command W T)) × ((loop (returns run_wrapped) wakes t).world
          ≡ run_all run_wrapped (before ++ (c ∷ more)) t.world)
  executed_split wakes before c t e on up enough =
      let u = loop (returns run_wrapped) wakes t in
      let runs = loop-InOrder (returns run_wrapped) wakes t in
      let left = pending (returns run_wrapped) u in
      let size = ap length e ∙ length-append before (c ∷ []) in
      let fewer =
        loop-fewer run_wrapped wakes (suc (length before)) t enough (omega (arith, size)) on up in
      let order : runs.executed ++ left ≡ pending (returns run_wrapped) t =
        ap (λ l. runs.executed ++ (l ++ left)) (sym (returns-lost run_wrapped runs)) ∙ runs.order in
      let long : suc (length before) ≤ length runs.executed =
        omega (arith, fewer, ap length order, length-append runs.executed left) in
      let (more, same) = front_split before c runs.executed left (flatten t.arrivals) long (
        order
        ∙ ap (λ q. q ++ flatten t.arrivals) e
        ∙ append_assoc before (c ∷ []) (flatten t.arrivals)) in
      (more, runs.world ∙ ap (λ l. run_all run_wrapped l t.world) same)

  -- While some sender lives and the thread runs, and no function panics, a function that `Bridge::run` sends is run after
  -- the functions queued before it, once the wakes count enough polls for those, sixteen to a poll,
  -- and whatever is sent meanwhile. Its caller then gets its result, if nothing else was sent on its
  -- channel.
  pub run-answered :
      (wakes : List Wake) (c : Command W T) (t : Thread (Command W T) (Replied W T))
      {sent : Channel (Command W T)}
      → run_send true c t.channel ≡ ok sent
      → t.running ≡ true
      → t.channel.connected ≡ true
      → suc (length t.channel.queue) ≤ poll_batch_size * ready_count wakes
      → reply_on c.result_tx (run_all run_wrapped t.channel.queue t.world).replies ≡ none
      → run_await false c.result_tx
          (loop (returns run_wrapped) wakes (record t { channel = sent })).world.replies
        ≡ done (ok (c.function (run_all run_wrapped t.channel.queue t.world).world).0)
  unfolding run_send send run_await
  run-answered wakes c t {sent} is_sent on up enough fresh =
      let e = ok-injective _ sent is_sent in
      let (more, world) =
        executed_split wakes t.channel.queue c (record t { channel = sent })
          (ap (λ x. x.queue) (sym e)) on (ap (λ x. x.connected) (sym e) ∙ up) enough in
      let found =
        ap (λ r. reply_on c.result_tx r.replies) world
        ∙ answer t.channel.queue more c t.world fresh in
      rw (run_await, found) refl
