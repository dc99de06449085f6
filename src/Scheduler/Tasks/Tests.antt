-- ===== src/Scheduler/Tasks/Tests.antt =====
-- Two tasks, a stop, and a task that comes too late.
use mathlib.Core.List.{Perm}
use prosody_rb.Base.{true, ◌≡◌, ◌⊎◌, refl, List, [], ◌∷◌, ok, err}
use prosody_rb.Ruby.{nil, string, new, runtime_error, object}
use prosody_rb.Handler.Run.Worker.{standard, Rescues}
use prosody_rb.Scheduler.Processor.{submit, stop}
use prosody_rb.Scheduler.Tasks.{
  ended, killed, Turn, submits, stops, processes, ends, turns, turn, new_tasks, start, ruby_submit,
  ruby_stop, process_commands, end_worker,
}
use prosody_rb.Scheduler.Tasks.Graceful.{turns_complete}
use prosody_rb.Scheduler.Tasks.WindDown.{enough, stopped-turns-end}

abbrev rescues : Rescues
rescues = record {
  exception_of = λ e. object 1;
  rescue_of = λ v. standard;
  task_cancelled = object 2;
}

abbrev row : List Turn
row =
    submits 1
    ∷ processes
    ∷ submits 2
    ∷ stops
    ∷ submits 3
    ∷ ends 0 (err (new runtime_error []))
    ∷ processes
    ∷ processes
    ∷ processes
    ∷ ends 0 (ok (string "two"))
    ∷ processes
    ∷ []

row_ends : (turns rescues row new_tasks).ruby.processing_thread ≡ ended
unfolding turns turn new_tasks start submit stop ruby_submit ruby_stop process_commands end_worker
row_ends = refl

row_finishes : (turns rescues row new_tasks).ruby.finished ≡ 1 ∷ 2 ∷ []
unfolding turns turn new_tasks start submit stop ruby_submit ruby_stop process_commands end_worker
row_finishes = refl

turns_complete_example :
    let s = turns rescues row new_tasks in
    (s.accepted ≡ s.ruby.started) × Perm s.accepted s.ruby.finished × (s.ruby.running ≡ [])
turns_complete_example = turns_complete rescues row row_ends

abbrev stopped_row : List Turn
stopped_row = submits 1 ∷ submits 2 ∷ processes ∷ stops ∷ []

stopped_row_stops : (turns rescues stopped_row new_tasks).processor.is_shutdown ≡ true
unfolding turns turn new_tasks start submit stop ruby_submit ruby_stop process_commands end_worker
stopped_row_stops = refl

stopped-turns-end_example :
    let s = turns rescues stopped_row new_tasks in
    (s.ruby.processing_thread ≡ killed)
    ⊎ ((turns rescues (enough rescues (ok nil) s) s).ruby.processing_thread ≡ ended)
stopped-turns-end_example = stopped-turns-end rescues (ok nil) refl stopped_row stopped_row_stops
