-- ===== src/Scheduler/Tasks/Killed.antt =====
-- A processing thread that was killed stays so.
use prosody_rb.Base.{
  ℕ, Bool, true, false, ◌≡◌, refl, ap, ◌∙◌, inl, inr, Option-cases, Bool-cases, [], ◌∷◌, ◌++◌,
  Result, get_elem?, if◌then◌else◌,
}
use prosody_rb.Ruby.{Value, Error}
use prosody_rb.Scheduler.Processor.{submit, stop}
use prosody_rb.Handler.Run.Worker.{Rescues}
use prosody_rb.Scheduler.Tasks.{
  shutdown, killed, escapes, kill, is_alive, AsyncTaskProcessor, ruby_stop, ruby_submit, process_in,
  process_commands, end_worker, Tasks, Turn, submits, stops, processes, ends, turn,
}

kill-killed :
    (on : Bool) (p : AsyncTaskProcessor)
    → p.processing_thread ≡ killed
    → (kill on p).processing_thread ≡ killed
kill-killed true p h = refl
kill-killed false p h = h

stop-killed :
    (p : AsyncTaskProcessor)
    → p.processing_thread ≡ killed
    → (ruby_stop p).processing_thread ≡ killed
unfolding ruby_stop
stop-killed p h = if_killed (is_alive p.processing_thread)
  where
    if_killed :
        (on : Bool)
        → (if on
            then record p { command_queue = p.command_queue ++ (shutdown ∷ []) }
            else p).processing_thread
          ≡ killed
    if_killed true = h
    if_killed false = h

end_worker-killed :
    (r : Rescues) (i : ℕ) (result : Result Error Value) (p : AsyncTaskProcessor)
    → p.processing_thread ≡ killed
    → (end_worker r i result p).processing_thread ≡ killed
unfolding end_worker
end_worker-killed r i result p h = elim (Option-cases (get_elem? p.running i)) [
  | inl is_none ↦ rw (is_none, end_worker) h
  | inr (t, is_some) ↦ rw (is_some, end_worker) (kill-killed (escapes r result) _ h)
]

-- A thread that was killed stays so.
pub turn-killed :
    (r : Rescues) (t : Turn) (s : Tasks)
    → s.ruby.processing_thread ≡ killed
    → (turn r t s).ruby.processing_thread ≡ killed
unfolding turn process_commands submit stop ruby_submit ruby_stop end_worker
turn-killed r (submits t) s h = elim (Bool-cases s.processor.is_shutdown) [
  | inl is_so ↦ rw (is_so, turn) h
  | inr is_not ↦ rw (is_not, turn) h
]
turn-killed r stops s h = elim (Bool-cases s.processor.is_shutdown) [
  | inl is_so ↦ rw (is_so, turn) h
  | inr is_not ↦ rw (is_not, turn) (stop-killed s.ruby h)
]
turn-killed r processes s h = ap (λ ph. (process_in ph s.ruby).processing_thread) h ∙ h
turn-killed r (ends i result) s h = end_worker-killed r i result s.ruby h
