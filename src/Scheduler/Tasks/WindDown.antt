-- ===== src/Scheduler/Tasks/WindDown.antt =====
-- A stopped processor ends, as its workers do, if an exception has not killed it before.
use prosody_rb.Base.{
  ℕ, zero, suc, ◌+◌, ◌≤◌, true, false, ◌≡◌, ◌⊎◌, inl, inr, refl, ap, sym, subst, ◌∙◌, List, [], ◌∷◌,
  ◌++◌, Result, length, length-append, remove, replicate, map, arith,
}
use prosody_rb.Ruby.{Value, Error}
use prosody_rb.Handler.Run.Worker.{Rescues}
use prosody_rb.Scheduler.Tasks.{
  Command, execute, shutdown, Phase, absent, popping, waiting, ended, killed, escapes,
  AsyncTaskProcessor, run_command, process_in, process_commands, end_worker, Tasks, Turn, processes,
  ends, turn, turns, new_tasks,
}
use prosody_rb.Scheduler.Tasks.Held.{executes, Holds}
use prosody_rb.Scheduler.Tasks.Graceful.{turns-IsKept, new_tasks-IsSound}

module _ (r : Rescues) (result : Result Error Value) where
  -- The thread pops all its commands, the workers end, and the thread looks again.
  abbrev pub wind_down : ℕ → ℕ → List Turn
  wind_down commands workers =
      replicate commands processes ++ (replicate workers (ends 0 result) ++ (processes ∷ []))

  -- The turns that are enough from a state.
  abbrev pub enough : Tasks → List Turn
  enough s =
      wind_down (length s.ruby.command_queue)
        (length s.ruby.running + length (executes s.ruby.command_queue))

module _ (r : Rescues) (result : Result Error Value) (kept : escapes r result ≡ false) where
  end_first :
      (running : List ℕ) (p : AsyncTaskProcessor)
      → p.running ≡ running
      → ((end_worker r 0 result p).processing_thread ≡ p.processing_thread)
        × ((end_worker r 0 result p).running ≡ remove 0 running)
  unfolding end_worker
  end_first [] p e = rw (e, end_worker) (refl, e)
  end_first (t ∷ running) p e = rw (e, kept, end_worker) (refl, ap (remove 0) e)

  workers-end :
      (k : ℕ) (running : List ℕ) (s : Tasks)
      → s.ruby.running ≡ running
      → s.ruby.processing_thread ≡ waiting
      → length running ≤ k
      → (turns r (wind_down r result 0 k) s).ruby.processing_thread ≡ ended
  unfolding turns turn process_commands end_worker
  workers-end zero [] s e phase few = rw (phase, e, process_commands) refl
  workers-end zero (t ∷ running) s e phase few = absurd (omega arith)
  workers-end (suc k) [] s e phase few =
      let (same, left) = end_first [] s.ruby e in
      workers-end k [] (turn r (ends 0 result) s) left (same ∙ phase) (omega arith)
  workers-end (suc k) (t ∷ running) s e phase few =
      let (same, left) = end_first (t ∷ running) s.ruby e in
      workers-end k running (turn r (ends 0 result) s) left (same ∙ phase) (omega arith)

  popped :
      (q : List Command) (p : AsyncTaskProcessor)
      → p.processing_thread ≡ popping
      → p.command_queue ≡ q
      → process_commands p ≡ run_command q p
  unfolding process_commands
  popped q p phase e = ap (λ ph. process_in ph p) phase ∙ ap (λ c. run_command c p) e

  commands-end :
      (ts : List ℕ) (k : ℕ) (s : Tasks)
      → s.ruby.command_queue ≡ map execute ts ++ (shutdown ∷ [])
      → s.ruby.processing_thread ≡ popping
      → length s.ruby.running + length ts ≤ k
      → (turns r (wind_down r result (suc (length ts)) k) s).ruby.processing_thread ≡ ended
  unfolding turns turn
  commands-end [] k s e phase few =
      subst
        (λ p.
          (turns r (wind_down r result 0 k) (record s { ruby = p })).ruby.processing_thread ≡ ended)
        (sym (popped (shutdown ∷ []) s.ruby phase e))
        (workers-end k s.ruby.running (record s { ruby = run_command (shutdown ∷ []) s.ruby }) refl
          refl (omega arith))
  commands-end (t ∷ ts) k s e phase few =
      let q = execute t ∷ (map execute ts ++ (shutdown ∷ [])) in
      subst
        (λ p.
          (turns r (wind_down r result (suc (length ts)) k)
            (record s { ruby = p })).ruby.processing_thread
          ≡ ended)
        (sym (popped q s.ruby phase e))
        (commands-end ts k (record s { ruby = run_command q s.ruby }) refl phase
          (omega (arith, length-append s.ruby.running (t ∷ []))))

  executes-tasks : (ts : List ℕ) → executes (map execute ts ++ (shutdown ∷ [])) ≡ ts
  executes-tasks [] = refl
  executes-tasks (t ∷ ts) = ap (λ l. t ∷ l) (executes-tasks ts)

  length-tasks : (ts : List ℕ) → length (map execute ts ++ (shutdown ∷ [])) ≡ suc (length ts)
  length-tasks [] = refl
  length-tasks (t ∷ ts) = ap suc (length-tasks ts)

  -- Numbers of commands and of tasks that are known.
  counted :
      (s : Tasks) {n : ℕ} {ts : List ℕ}
      → length s.ruby.command_queue ≡ n
      → executes s.ruby.command_queue ≡ ts
      → (turns r
          (wind_down r result n (length s.ruby.running + length ts))
          s).ruby.processing_thread
        ≡ ended
      → (turns r (enough r result s) s).ruby.processing_thread ≡ ended
  counted s {n} {ts} many queued e =
      subst
        (λ k.
          let more = length (executes s.ruby.command_queue) in
          (turns r (wind_down r result k (length s.ruby.running + more)) s).ruby.processing_thread
          ≡ ended)
        (sym many)
        (subst
          (λ l.
            (turns r (wind_down r result n (length s.ruby.running + length l))
              s).ruby.processing_thread
            ≡ ended)
          (sym queued) e)

  stopped-ends :
      (phase : Phase) (s : Tasks)
      → s.ruby.processing_thread ≡ phase
      → Holds true phase s.ruby.running s.ruby.command_queue
      → (turns r (enough r result s) s).ruby.processing_thread ≡ ended
  unfolding turns turn process_commands
  stopped-ends absent s e h = absurd h
  stopped-ends killed s e h = absurd h
  stopped-ends popping s e (ts, holds) =
      counted s (ap length holds ∙ length-tasks ts) (ap executes holds ∙ executes-tasks ts)
        (commands-end ts (length s.ruby.running + length ts) s holds e (omega arith))
  stopped-ends waiting s e (_, no_command) =
      counted s (ap length no_command) (ap executes no_command)
        (workers-end (length s.ruby.running + 0) s.ruby.running s refl e (omega arith))
  stopped-ends ended s e (_, no_command, none_left) =
      counted s (ap length no_command) (ap executes no_command) (
        subst (λ n. (turns r (wind_down r result 0 (n + 0)) s).ruby.processing_thread ≡ ended)
          (sym (ap length none_left)) (ap (λ ph. (process_in ph s.ruby).processing_thread) e ∙ e))

  -- Let the processor have been stopped, after any turns from the start. Then it ends: an exception
  -- that no worker rescues has killed its thread already, or, if the thread pops every command in the
  -- queue, as many workers end as there are running tasks and queued ones, their blocks with no such
  -- exception, and the thread looks once more, the processing thread has ended by itself.
  pub stopped-turns-end :
      (l : List Turn)
      → (turns r l new_tasks).processor.is_shutdown ≡ true
      → let s = turns r l new_tasks in
        (s.ruby.processing_thread ≡ killed)
        ⊎ ((turns r (enough r result s) s).ruby.processing_thread ≡ ended)
  stopped-turns-end l e = elim (turns-IsKept r l new_tasks (inr new_tasks-IsSound)) [
    | inl was_killed ↦ inl was_killed
    | inr h ↦
        let s = turns r l new_tasks in
        inr (stopped-ends s.ruby.processing_thread s refl (rw e at h.queue_law))
  ]
