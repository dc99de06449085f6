-- ===== src/Scheduler/Tasks.antt =====
-- The processor of tasks in Ruby, `AsyncTaskProcessor` of lib/prosody/processor.rb, behind the
-- `submit` and `stop` of ext/prosody/src/scheduler/processor.rs. Its command queue, its thread and
-- the workers of its tasks take turns. A task is its number; cancellation only decides how its block
-- ends. The calls of tracing and of the logger are left out, and are taken not to raise.
mod Tests
pub mod Held
pub mod Sound
pub mod Killed
pub mod Graceful
pub mod WindDown
use mathlib.Core.List.{map}
use prosody_rb.Base.{
  ℕ, Bool, true, false, Option, none, some, List, [], ◌∷◌, ◌++◌, Result, ok, err, get_elem?, remove,
  if◌then◌else◌,
}
use prosody_rb.Ruby.{Value, Error}
use prosody_rb.Scheduler.Processor.{RubyProcessor, new_processor, submit, stop}
use prosody_rb.Handler.Run.Worker.{
  Rescues, Rescue, stop as stopped, standard, neither, worker_calls,
}

-- `Commands::Execute` and `Commands::Shutdown`
pub data Command : Type 0 where
  execute : ℕ → Command
  shutdown : Command

-- The processing thread: not there, popping commands, waiting for the tasks after a shutdown, ended,
-- or killed by an exception.
pub data Phase : Type 0 where
  absent popping waiting ended killed : Phase

-- The queue of commands, the tasks whose workers run, those that were started and those that
-- finished, in order, and the calls of result procs.
pub record AsyncTaskProcessor : Type 0 where
  pub command_queue : List Command
  pub processing_thread : Phase
  pub running : List ℕ
  pub started : List ℕ
  pub finished : List ℕ
  pub calls : List (ℕ × List Value)

abbrev pub is_alive : Phase → Bool
is_alive absent = false
is_alive popping = true
is_alive waiting = true
is_alive ended = false
is_alive killed = false

unfoldable pub start : AsyncTaskProcessor → AsyncTaskProcessor
start p = if is_alive p.processing_thread then p else record p { processing_thread = popping }

unfoldable pub ruby_stop : AsyncTaskProcessor → AsyncTaskProcessor
ruby_stop p =
    if is_alive p.processing_thread
    then record p { command_queue = p.command_queue ++ (shutdown ∷ []) }
    else p

unfoldable pub ruby_submit : ℕ → AsyncTaskProcessor → AsyncTaskProcessor
ruby_submit t p = record p { command_queue = p.command_queue ++ (execute t ∷ []) }

abbrev pub run_command : List Command → AsyncTaskProcessor → AsyncTaskProcessor
run_command [] p = p
run_command (execute t ∷ rest) p = record p {
  command_queue = rest;
  running = p.running ++ (t ∷ []);
  started = p.started ++ (t ∷ []);
}
run_command (shutdown ∷ rest) p = record p { command_queue = rest; processing_thread = waiting }

abbrev pub wait_all : List ℕ → AsyncTaskProcessor → AsyncTaskProcessor
wait_all [] p = record p { processing_thread = ended }
wait_all (t ∷ running) p = p

abbrev pub process_in : Phase → AsyncTaskProcessor → AsyncTaskProcessor
process_in popping p = run_command p.command_queue p
process_in waiting p = wait_all p.running p
process_in _ p = p

-- One round of `process_commands`: a command is popped, if there is one; after a shutdown, the
-- thread ends once no task runs.
unfoldable pub process_commands : AsyncTaskProcessor → AsyncTaskProcessor
process_commands p = process_in p.processing_thread p

-- An exception that the worker does not rescue, as it is neither `Async::Stop` nor a
-- `StandardError`. The task re-raises it, and so does its reactor; `process_commands` does not rescue
-- it either.
abbrev is_neither : Rescue → Bool
is_neither neither = true
is_neither stopped = false
is_neither standard = false

abbrev pub escapes : Rescues → Result Error Value → Bool
escapes r (ok result) = false
escapes r (err error) = is_neither (r.rescue_of (r.exception_of error))

-- It kills the thread of the reactor, and with that all workers.
abbrev pub kill : Bool → AsyncTaskProcessor → AsyncTaskProcessor
kill true p = record p { processing_thread = killed; running = [] }
kill false p = p

-- The worker of a running task ends, its block with `result`.
unfoldable pub end_worker :
    Rescues → ℕ → Result Error Value → AsyncTaskProcessor → AsyncTaskProcessor
unfolding worker_calls
end_worker r i result p = elim (get_elem? p.running i) [
  | none ↦ p
  | some t ↦ kill (escapes r result) (record p {
    running = remove i p.running;
    finished = p.finished ++ (t ∷ []);
    calls = p.calls ++ map (λ arguments. (t, arguments)) (worker_calls r result);
  })
]

-- Both sides, with the tasks that Rust's `submit` accepted.
pub record Tasks : Type 0 where
  pub processor : RubyProcessor
  pub ruby : AsyncTaskProcessor
  pub accepted : List ℕ

pub data Turn : Type 0 where
  submits : ℕ → Turn
  stops : Turn
  processes : Turn
  ends : ℕ → Result Error Value → Turn

abbrev pub after_submit : ℕ → Tasks → Result Error (Unit {0}) × AsyncTaskProcessor → Tasks
after_submit t s (ok token, ruby) = record s { ruby = ruby; accepted = s.accepted ++ (t ∷ []) }
after_submit t s (err e, ruby) = record s { ruby = ruby }

abbrev pub after_stop : Tasks → RubyProcessor × Result Error (Unit {0}) × AsyncTaskProcessor → Tasks
after_stop s (processor, reply, ruby) = record s { processor = processor; ruby = ruby }

module _ (r : Rescues) where
  unfoldable pub turn : Turn → Tasks → Tasks
  unfolding submit stop ruby_submit ruby_stop process_commands end_worker
  turn (submits t) s =
      after_submit t s (submit (λ task. λ p. (ok tt, ruby_submit task p)) s.processor t s.ruby)
  turn stops s = after_stop s (stop (λ p. (ok tt, ruby_stop p)) s.processor s.ruby)
  turn processes s = record s { ruby = process_commands s.ruby }
  turn (ends i result) s = record s { ruby = end_worker r i result s.ruby }

  unfoldable pub turns : List Turn → Tasks → Tasks
  unfolding turn
  turns [] s = s
  turns (t ∷ l) s = turns l (turn t s)

-- `AsyncTaskProcessor#initialize`, and then its start by `RubyProcessor::new`.
abbrev pub new_ruby : AsyncTaskProcessor
new_ruby = record {
  command_queue = [];
  processing_thread = absent;
  running = [];
  started = [];
  finished = [];
  calls = [];
}

unfoldable pub new_tasks : Tasks
unfolding start
new_tasks = record { processor = new_processor; ruby = start new_ruby; accepted = [] }
