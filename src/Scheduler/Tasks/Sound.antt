-- ===== src/Scheduler/Tasks/Sound.antt =====
-- No turn loses a task, unless an exception kills the thread.
use mathlib.Core.List.Perm
use mathlib.Core.List.{Perm, append_assoc, append-nil, map, map-append}
use prosody_rb.Base.{
  ℕ, true, false, ◌≡◌, refl, ap, sym, subst, ◌∙◌, inl, inr, Option-cases, Bool-cases, List, [], ◌∷◌,
  ◌++◌, Result, ok, err, get_elem?, remove,
}
use prosody_rb.Base.Removal.{get-remove-perm}
use prosody_rb.Ruby.{Value, Error}
use prosody_rb.Scheduler.Processor.{shutting_down, submit, stop}
use prosody_rb.Handler.Run.Worker.{Rescues}
use prosody_rb.Scheduler.Tasks.{
  Command, execute, shutdown, Phase, absent, popping, waiting, ended, killed, escapes, ruby_stop,
  ruby_submit, run_command, wait_all, process_in, end_worker, Tasks, submits, stops, after_submit,
  after_stop, turn,
}
use prosody_rb.Scheduler.Tasks.Held.{
  executes, Holds, executes-append, unstopped_pops, execute-Holds, shutdown-Holds, end-Holds,
}

-- The tasks are where they should be, as long as no exception has killed the thread.
pub record IsSound (s : Tasks) : Type 0 where
  pub queue_law :
      Holds s.processor.is_shutdown s.ruby.processing_thread s.ruby.running s.ruby.command_queue
  pub order_law : s.accepted ≡ s.ruby.started ++ executes s.ruby.command_queue
  pub count_law : Perm s.ruby.started (s.ruby.finished ++ s.ruby.running)

run_command-IsSound :
    (q : List Command) (s : Tasks)
    → s.ruby.command_queue ≡ q
    → s.ruby.processing_thread ≡ popping
    → IsSound s
    → IsSound (record s { ruby = run_command q s.ruby })
run_command-IsSound [] s e phase h = h
run_command-IsSound (execute t ∷ q) s e phase h =
    let holds = rw (e, phase) at h.queue_law in
    let order = ap (λ c. s.ruby.started ++ executes c) e in
    record {
      queue_law =
          subst (λ ph. Holds s.processor.is_shutdown ph (s.ruby.running ++ (t ∷ [])) q) (sym phase)
            (execute-Holds s.processor.is_shutdown s.ruby.running _ [] t q holds);
      order_law = h.order_law ∙ order ∙ sym (append_assoc s.ruby.started (t ∷ []) (executes q));
      count_law =
          subst (Perm (s.ruby.started ++ (t ∷ [])))
            (append_assoc s.ruby.finished s.ruby.running (t ∷ []))
            (Perm.append_right (t ∷ []) h.count_law);
    }
run_command-IsSound (shutdown ∷ q) s e phase h =
    let holds = rw (e, phase) at h.queue_law in
    record {
      queue_law = shutdown-Holds s.processor.is_shutdown s.ruby.running q holds;
      order_law = h.order_law ∙ ap (λ c. s.ruby.started ++ executes c) e;
      count_law = h.count_law;
    }

wait_all-IsSound :
    (running : List ℕ) (s : Tasks)
    → s.ruby.running ≡ running
    → s.ruby.processing_thread ≡ waiting
    → IsSound s
    → IsSound (record s { ruby = wait_all running s.ruby })
wait_all-IsSound [] s e phase h =
    let (stopped, no_command) = rw phase at h.queue_law in
    record {
      queue_law = (stopped, no_command, e);
      order_law = h.order_law;
      count_law = h.count_law;
    }
wait_all-IsSound (t ∷ running) s e phase h = h

pub process_in-IsSound :
    (phase : Phase) (s : Tasks)
    → s.ruby.processing_thread ≡ phase
    → IsSound s
    → IsSound (record s { ruby = process_in phase s.ruby })
process_in-IsSound absent s e h = h
process_in-IsSound popping s e h = run_command-IsSound s.ruby.command_queue s refl e h
process_in-IsSound waiting s e h = wait_all-IsSound s.ruby.running s refl e h
process_in-IsSound ended s e h = h
process_in-IsSound killed s e h = h

pub end_worker-IsSound :
    (r : Rescues) (i : ℕ) (result : Result Error Value) (s : Tasks)
    → escapes r result ≡ false
    → IsSound s
    → IsSound (record s { ruby = end_worker r i result s.ruby })
unfolding end_worker
end_worker-IsSound r i result s kept h = elim (Option-cases (get_elem? s.ruby.running i)) [
  | inl is_none ↦ rw (is_none, end_worker) h
  | inr (t, is_some) ↦
      rw (is_some, kept, end_worker)
        (record {
          queue_law =
              end-Holds s.processor.is_shutdown s.ruby.processing_thread s.ruby.running
                s.ruby.command_queue i is_some h.queue_law;
          order_law = h.order_law;
          count_law = Perm.trans h.count_law (
              subst (Perm (s.ruby.finished ++ s.ruby.running))
                (sym (append_assoc s.ruby.finished (t ∷ []) (remove i s.ruby.running)))
                (Perm.append_left s.ruby.finished (get-remove-perm s.ruby.running i is_some)));
        })
]

pushed :
    (ts : List ℕ) (t : ℕ) {q : List Command}
    → q ≡ map execute ts
    → q ++ (execute t ∷ []) ≡ map execute (ts ++ (t ∷ []))
pushed ts t e = ap (λ c. c ++ (execute t ∷ [])) e ∙ sym (map-append execute ts (t ∷ []))

pub submit-IsSound : (t : ℕ) (r : Rescues) (s : Tasks) → IsSound s → IsSound (turn r (submits t) s)
unfolding turn submit ruby_submit
submit-IsSound t r s h = elim (Bool-cases s.processor.is_shutdown) [
  | inl is_so ↦
      let same : submit (λ task. λ p. (ok tt, ruby_submit task p)) s.processor t s.ruby
          ≡ (err shutting_down, s.ruby) =
        rw is_so refl in
      subst IsSound (sym (ap (after_submit t s) same)) h
  | inr is_not ↦
      let pops = unstopped_pops _ _ _ (rw is_not at h.queue_law) in
      let (ts, e) = rw (is_not, pops) at h.queue_law in
      let same : submit (λ task. λ p. (ok tt, ruby_submit task p)) s.processor t s.ruby
          ≡ (ok tt, ruby_submit t s.ruby) =
        rw is_not refl in
      let after = after_submit t s (ok tt, ruby_submit t s.ruby) in
      let sound : IsSound after = record {
        queue_law =
            subst
              (λ f.
                Holds f after.ruby.processing_thread after.ruby.running after.ruby.command_queue)
              (sym is_not)
              (subst (λ ph. Holds false ph after.ruby.running after.ruby.command_queue) (sym pops)
                (ts ++ (t ∷ []), pushed ts t e));
        order_law =
            ap (λ l. l ++ (t ∷ [])) h.order_law
            ∙ append_assoc s.ruby.started (executes s.ruby.command_queue) (t ∷ [])
            ∙ ap (λ l. s.ruby.started ++ l)
                (sym (executes-append s.ruby.command_queue (execute t ∷ [])));
        count_law = h.count_law;
      } in
      subst IsSound (sym (ap (after_submit t s) same)) sound
]

pub stop-IsSound : (r : Rescues) (s : Tasks) → IsSound s → IsSound (turn r stops s)
unfolding turn stop ruby_stop
stop-IsSound r s h = elim (Bool-cases s.processor.is_shutdown) [
  | inl is_so ↦
      let same : stop (λ p. (ok tt, ruby_stop p)) s.processor s.ruby
          ≡ (record { is_shutdown = true }, ok tt, s.ruby) =
        rw is_so refl in
      let holds = rw is_so at h.queue_law in
      let sound : IsSound (after_stop s (record { is_shutdown = true }, ok tt, s.ruby)) = record {
        queue_law = holds;
        order_law = h.order_law;
        count_law = h.count_law;
      } in
      subst IsSound (sym (ap (after_stop s) same)) sound
  | inr is_not ↦
      let pops = unstopped_pops _ _ _ (rw is_not at h.queue_law) in
      let (ts, e) = rw (is_not, pops) at h.queue_law in
      let last = record s.ruby { command_queue = s.ruby.command_queue ++ (shutdown ∷ []) } in
      let pushed_last : ruby_stop s.ruby ≡ last = rw (pops, ruby_stop) refl in
      let same : stop (λ p. (ok tt, ruby_stop p)) s.processor s.ruby
          ≡ (record { is_shutdown = true }, ok tt, last) =
        (rw is_not refl) ∙ ap (λ p. (record { is_shutdown = true }, ok tt, p)) pushed_last in
      let sound : IsSound (after_stop s (record { is_shutdown = true }, ok tt, last)) = record {
        queue_law =
            subst (λ ph. Holds true ph s.ruby.running last.command_queue) (sym pops)
              (ts, ap (λ q. q ++ (shutdown ∷ [])) e);
        order_law =
            h.order_law
            ∙ ap (λ l. s.ruby.started ++ l)
                (sym (
                  executes-append s.ruby.command_queue (shutdown ∷ [])
                  ∙ append-nil (executes s.ruby.command_queue)));
        count_law = h.count_law;
      } in
      subst IsSound (sym (ap (after_stop s) same)) sound
]
