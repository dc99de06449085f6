-- ===== src/Client/Readers/Tests.antt =====
-- A reader that is opened in process 1 and read in process 2.
use prosody_rb.Base.{ℕ, refl, Option, none, Result, ok, arith}
use prosody_rb.Ruby.{Value, nil, Error}
use prosody_rb.Ruby.Effects.{M, pure}
use prosody_rb.Ruby.Vm.Sample.{sample}
use prosody_rb.Ruby.Vm.{Vm}
use prosody_rb.Util.ForkGuard.{ForkGuard, check}
use prosody_rb.Published.{SharedValueReader, read}
use prosody_rb.Client.Calls.{check_fork}
use prosody_rb.Client.Calls.Forked.{IsRefused}
use prosody_rb.Client.Config.Native.{ReadCacheConfig}
use prosody_rb.Client.Config.Sample.{parsers}
use prosody_rb.Client.Config.State.{ReadCachePolicy, read_cache_policy}
use prosody_rb.Client.Readers.{ReaderBuildError, open_inner, open_reader}
use prosody_rb.Client.Readers.Forked.{opened-IsRefused}

abbrev vm : Vm ℕ
vm = sample (λ w. w)

abbrev fork : ForkGuard
fork = record { pid = 1; class = "Prosody::Client" }

abbrev reader : SharedValueReader ℕ Value
reader = record { wait_get = λ key. λ context. pure (ok none) }

abbrev deserialize : Value → Result Error (Option (ReadCacheConfig (parsers.F64)))
deserialize v = ok none

abbrev opening : ReadCachePolicy ℕ → M ℕ (Result ReaderBuildError (SharedValueReader ℕ Value))
opening policy = pure (ok reader)

opened-IsRefused_example :
    IsRefused fork 2 (read vm (record { fork = fork }) (reader.wait_get "user"))
    × IsRefused fork 2 (open_reader vm parsers fork deserialize nil opening)
unfolding open_reader open_inner check_fork check read_cache_policy
opened-IsRefused_example =
    opened-IsRefused vm parsers fork deserialize nil opening 1 {reader = reader}
      {reads = record { fork = fork }} {w' = 1} refl (reader.wait_get "user") 2 (omega arith)
