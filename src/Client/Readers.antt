-- ===== src/Client/Readers.antt =====
-- ext/prosody/src/client/readers.rs: a client opens readers of published state. The core's opening
-- of a reader is a parameter.
pub mod Forked
mod Tests
use prosody_rb.Base.{String, Option, List, [], ◌∷◌, Result, ok, err}
use prosody_rb.Ruby.{Value, Error, Message, new, argument_error, runtime_error, lit}
use prosody_rb.Ruby.Effects.{M, ◌>>=◌, ◌>>◌, and_then, pure, lift}
use prosody_rb.Ruby.Vm.{Vm}
use prosody_rb.Util.ForkGuard.{ForkGuard}
use prosody_rb.Handler.State.Handles.{ErasedStateError, state_error, raise}
use prosody_rb.Published.{
  Reads, SharedValueReader, SharedMapReader, SharedSetReader, SharedDequeReader,
}
use prosody_rb.Client.Calls.{check_fork, core_error}
use prosody_rb.Client.Config.Core.{Parsers}
use prosody_rb.Client.Config.Native.{ReadCacheConfig}
use prosody_rb.Client.Config.State.{ReadCachePolicy, read_cache_policy}

-- `ErasedReaderBuildError`: a state reader's error, or another by its text.
pub data ReaderBuildError : Type 0 where
  state_reader : ErasedStateError → ReaderBuildError
  other : String → ReaderBuildError

module _ {W : Type 0} (vm : Vm W) (p : Parsers) (fork : ForkGuard) where
  open p use {F64, Duration, floats}

  abbrev pub argument : {A : Type 0} → Result Message A → Result Error A
  argument (ok a) = ok a
  argument (err m) = err (new argument_error m)

  abbrev pub opened : {R : Type 0} → Result ReaderBuildError R → M W R
  opened (ok reader) = pure reader
  opened (err (state_reader e)) = raise vm (state_error vm e)
  opened (err (other text)) = lift (err (core_error text))

  module _ (deserialize : Value → Result Error (Option (ReadCacheConfig F64)))
      (read_cache : Value) where
    -- What `open_reader` waits for.
    unfoldable pub open_inner :
        {R : Type 0} → (ReadCachePolicy Duration → M W (Result ReaderBuildError R)) → M W R
    unfolding check_fork read_cache_policy state_error
    open_inner wait_open = check_fork vm fork >> (do
      config ← lift (deserialize read_cache)
      cache ← lift (argument (read_cache_policy p "read_cache" config))
      answer ← wait_open cache
      opened answer)

    -- The reader, with the client's guard.
    unfoldable pub open_reader :
        {R : Type 0}
        → (ReadCachePolicy Duration → M W (Result ReaderBuildError R))
        → M W (R × Reads)
    unfolding open_inner
    open_reader wait_open = do reader ← open_inner wait_open; pure (reader, record { fork = fork })

    -- The four readers differ in what the core opens.
    abbrev pub Opening : Type 0 → Type 0
    Opening R = String → String → ReadCachePolicy Duration → M W (Result ReaderBuildError R)

    unfoldable pub published_value :
        {Json : Type 0}
        → Opening (SharedValueReader W Json)
        → String
        → String
        → M W (SharedValueReader W Json × Reads)
    unfolding open_reader
    published_value value_state subsystem name = open_reader (value_state subsystem name)

    unfoldable pub published_map :
        {Json : Type 0}
        → Opening (SharedMapReader W Json)
        → String
        → String
        → M W (SharedMapReader W Json × Reads)
    unfolding open_reader
    published_map map_state subsystem name = open_reader (map_state subsystem name)

    unfoldable pub published_set :
        Opening (SharedSetReader W) → String → String → M W (SharedSetReader W × Reads)
    unfolding open_reader
    published_set set_state subsystem name = open_reader (set_state subsystem name)

    unfoldable pub published_deque :
        {Json : Type 0}
        → Opening (SharedDequeReader W Json)
        → String
        → String
        → M W (SharedDequeReader W Json × Reads)
    unfolding open_reader
    published_deque deque_state subsystem name = open_reader (deque_state subsystem name)
