-- ===== src/Lib.antt =====
-- The native extension of prosody-rb, ext/prosody, lets Ruby programs produce and consume Kafka
-- messages with the Prosody core, a Rust library. This library models what the extension itself
-- does between the two.
--
-- The parts and how they meet. `Bridge` (bridge/mod.rs, all paths from ext/prosody/src) runs
-- functions of Rust threads on one Ruby thread, which waits for them with Ruby's global lock
-- released by `Gvl` (gvl.rs); `Bridge.Calls` is `run`, where a Rust caller awaits a result, and
-- `Bridge.Waits` is `wait_for` with bridge/callback.rs, where a Ruby caller does. `Scheduler`
-- (scheduler/) submits a task through the bridge to a Ruby processor (`Scheduler.Processor`, and
-- the processor itself, of lib/prosody/processor.rb, is `Scheduler.Tasks`) and gets its result over a one-shot channel (`Scheduler.Delivery`, scheduler/result.rs).
-- `Handler.Run` (handler/mod.rs) turns each message, excise record and timer of the core into such
-- a task and races it against cancellation. A Ruby handler sees its event through `Handler.Context`
-- (handler/context/mod.rs: times, timers and the demand) and `Handler.Messages`
-- (handler/message.rs, trigger.rs). Its context hands out handles of keyed state
-- (`Handler.Context.Vending`, handler/context/vending.rs), which `Handler.State` models: values
-- (`Handles`) and maps (`Map`) of handler/state/mod.rs, `Set`, `Deque` and the cursors of scans
-- (`Cursor`) of the files of those names, and the payload kinds of all of them (`Kinds`), with
-- `traverse` of lib/prosody/state.rb, which reads a cursor, and the reads of a deque by index of
-- lib/prosody/state/deque.rb (`Deque.Library`). Scans are asked for by the queries of `Handler.State.Query` (handler/state/query.rs).
-- `Published` (published.rs) has the readers of other subsystems' state. `Client` is the Ruby
-- client: `Client.Config` (client/config/) checks the options and translates them into settings of
-- the core's builders, `Client.Start` (client/mod.rs) starts a client with them, `Client.Calls`
-- (client/mod.rs, client/support.rs) has the methods, `Client.Request` (client/request.rs) the
-- requests to other subsystems, and `Client.Readers` (client/readers.rs) opens published readers.
-- `Admin` (admin.rs) creates and deletes topics, and `Logging` (logging.rs) sends the events of
-- tracing to Ruby's logger, over a channel and a task (`Logging.Forward`). `Classes` defines the
-- Ruby classes, by the `init` and `register` functions of all these files, and holds the entry point
-- of lib.rs (`Classes.Init`). `Util` (util.rs) has durations, the fork guard, the set-up of the
-- runtime and of tracing, and values shared between threads. `Ruby` holds Ruby's values and errors,
-- `Ruby.Effects` the monad of a call that may fail and changes the outside, and `Ruby.Vm` the
-- methods of Ruby that are called, with tracing_util.rs. `Base` has the shared names.
--
-- How the code is written down. A Rust function keeps its name where the name is free; `Result` and
-- `?` are `Result` and its bind; an error message is the list of the pieces of its format string. A
-- builder of the core is the list of the settings made on it, in order, and a query of the core the
-- list of its calls. u32 and usize values are natural numbers with their ranges written out, for a
-- usize of 64 bits; an i64 of Ruby is an integer. Other threads appear as explicit lists: what they
-- send before each receive of a poll, the calls of an unblocking closure before and after the
-- closure, the calls and drops that a result channel sees, the drops of shared values, and the
-- begins, results and pops of waits, and the turns of what forwards log events. A command of the
-- bridge returns or panics; what is said of one that is answered or drained is about commands that
-- return (`returns`). A method that is
-- defined for Ruby is its name, the path of its Rust function, and its arity.
--
-- The core, Ruby, and the crates are parameters: records of functions such as `Parsers`, `Builds`,
-- `CoreClient`, `Requests`, `TimerWorld`, `HandlerWorld`, `DequeState`, `StateCursor`, `Formats`,
-- `Definer` and `Vm`. Where a theorem needs the core's data, the world is seen through a view, and laws say
-- what each operation of the core does to it (`Handler.State.Handles.Laws`,
-- `Ruby.Effects.Refines`); those of maps and deques are about items that the core takes, for it
-- refuses JSON's null, and a deque has its capacity. A wait that cannot end yet is a value (`blocked`, `waiting`). The
-- bridge's loop runs over the list of the wakes that its thread sees, and a poll takes at most
-- sixteen commands. Two loops have fuel: the one that reads a cursor, one for each chunk, for
-- which one more than there are items is enough, since no chunk is empty; and the removal of a
-- prefix from a class path, with the length of the path.
--
-- Not modelled: tracing spans, and the set-up of the allocator and of the runtime's threads. The
-- operation that calls of `Client#shutdown` share is the core's, behind `CoreClient`. The Ruby code
-- under lib/ is behind `Vm`, but for `traverse`, the reads of a deque by index, and the task
-- processor of lib/prosody/processor.rb, whose worker `Handler.Run.Worker` has; which native methods that code
-- calls is in `Classes.Surface.Calls`.
pub mod Base
pub mod Ruby
pub mod Util
pub mod Gvl
pub mod Bridge
pub mod Published
pub mod Scheduler
pub mod Handler
pub mod Client
pub mod Classes
pub mod Admin
pub mod Logging
