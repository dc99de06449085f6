-- ===== src/Scheduler/Tasks/Graceful.antt =====
-- Every task that is accepted is run to its end, also where the processor is stopped, unless an
-- exception kills the processing thread.
use mathlib.Core.List.Perm
use mathlib.Core.List.{Perm, append-nil}
use prosody_rb.Base.{
  ℕ, Bool, true, ◌≡◌, ◌≢◌, ◌⊎◌, refl, ap, sym, subst, ◌∙◌, inl, inr, Option-cases, Bool-cases, List,
  [], ◌∷◌, ◌++◌, Result, get_elem?,
}
use prosody_rb.Ruby.{Value, Error}
use prosody_rb.Handler.Run.Worker.{Rescues}
use prosody_rb.Scheduler.Tasks.{
  Command, Phase, ended, killed, escapes, start, process_commands, end_worker, Tasks, Turn, submits,
  stops, processes, ends, turn, turns, new_tasks,
}
use prosody_rb.Scheduler.Tasks.Held.{executes, Holds}
use prosody_rb.Scheduler.Tasks.Sound.{
  IsSound, process_in-IsSound, end_worker-IsSound, submit-IsSound, stop-IsSound,
}
use prosody_rb.Scheduler.Tasks.Killed.{turn-killed}

-- The invariant: the thread was killed, or the tasks are where they should be.
abbrev pub IsKept : Tasks → Type 0
IsKept s = (s.ruby.processing_thread ≡ killed) ⊎ IsSound s

end_worker-IsKept :
    (r : Rescues) (i : ℕ) (result : Result Error Value) (s : Tasks)
    → IsSound s
    → IsKept (record s { ruby = end_worker r i result s.ruby })
unfolding end_worker
end_worker-IsKept r i result s h = elim (Bool-cases (escapes r result)) [
  | inl escaped ↦ elim (Option-cases (get_elem? s.ruby.running i)) [
    | inl is_none ↦ inr (rw (is_none, end_worker) h)
    | inr (t, is_some) ↦ inl (rw (is_some, escaped, end_worker) refl)
  ]
  | inr kept ↦ inr (end_worker-IsSound r i result s kept h)
]

turn-IsSound : (r : Rescues) (t : Turn) (s : Tasks) → IsSound s → IsKept (turn r t s)
unfolding turn process_commands
turn-IsSound r (submits t) s h = inr (submit-IsSound t r s h)
turn-IsSound r stops s h = inr (stop-IsSound r s h)
turn-IsSound r processes s h = inr (process_in-IsSound s.ruby.processing_thread s refl h)
turn-IsSound r (ends i result) s h = end_worker-IsKept r i result s h

pub turns-IsKept : (r : Rescues) (l : List Turn) (s : Tasks) → IsKept s → IsKept (turns r l s)
unfolding turns
turns-IsKept r [] s h = h
turns-IsKept r (t ∷ l) s (inl h) = turns-IsKept r l (turn r t s) (inl (turn-killed r t s h))
turns-IsKept r (t ∷ l) s (inr h) = turns-IsKept r l (turn r t s) (turn-IsSound r t s h)

pub new_tasks-IsSound : IsSound new_tasks
unfolding new_tasks start
new_tasks-IsSound = record { queue_law = ([], refl); order_law = refl; count_law = Perm.rfl }

nothing_held :
    (stopped : Bool) (phase : Phase) (running : List ℕ) (q : List Command)
    → phase ≡ ended
    → Holds stopped phase running q
    → (stopped ≡ true) × (q ≡ []) × (running ≡ [])
nothing_held stopped phase running q e h = rw e at h

ended-killed : ended ≢ killed
ended-killed e = cc

complete :
    (s : Tasks)
    → IsSound s
    → s.ruby.processing_thread ≡ ended
    → (s.accepted ≡ s.ruby.started) × Perm s.accepted s.ruby.finished × (s.ruby.running ≡ [])
complete s h e =
    let (_, no_command, none_left) = nothing_held _ _ _ _ e h.queue_law in
    let order =
      h.order_law ∙ ap (λ q. s.ruby.started ++ executes q) no_command ∙ append-nil s.ruby.started in
    let finished = ap (λ l. s.ruby.finished ++ l) none_left ∙ append-nil s.ruby.finished in
    (
      order,
      subst (λ l. Perm l s.ruby.finished) (sym order)
          (subst (Perm s.ruby.started) finished h.count_law),
      none_left,
    )

-- Let tasks be submitted, the processor be stopped, commands be popped and workers end, in any
-- number and order, from the start. Once the processing thread has ended by itself, the tasks that
-- were started are the ones that `submit` accepted, each once and in that order; each of them has
-- finished, once; and no worker runs. So a stop loses no accepted task. It is a thread that was
-- killed by an exception that no worker rescues, neither `Async::Stop` nor a `StandardError`, that
-- has not ended by itself.
pub turns_complete :
    (r : Rescues) (l : List Turn)
    → (turns r l new_tasks).ruby.processing_thread ≡ ended
    → let s = turns r l new_tasks in
      (s.accepted ≡ s.ruby.started) × Perm s.accepted s.ruby.finished × (s.ruby.running ≡ [])
turns_complete r l e = elim (turns-IsKept r l new_tasks (inr new_tasks-IsSound)) [
  | inl was_killed ↦ absurd (ended-killed (sym e ∙ was_killed))
  | inr h ↦ complete (turns r l new_tasks) h e
]
