-- ===== src/Client/Readers/Forked.antt =====
-- A reader takes its client's guard with it.
use prosody_rb.Base.{◌≡◌, ◌≢◌, sym, subst, Option, Result, ok}
use prosody_rb.Ruby.{Value, Error}
use prosody_rb.Ruby.Effects.{M, and_then-eq-ok, pure}
use prosody_rb.Ruby.Vm.{Vm}
use prosody_rb.Util.ForkGuard.{ForkGuard}
use prosody_rb.Published.{Reads, Read, read}
use prosody_rb.Published.Forked.{read-IsRefused}
use prosody_rb.Client.Calls.{check_fork}
use prosody_rb.Client.Calls.Forked.{IsRefused, check_fork-forked, refused}
use prosody_rb.Client.Config.Core.{Parsers}
use prosody_rb.Client.Config.Native.{ReadCacheConfig}
use prosody_rb.Client.Config.State.{ReadCachePolicy}
use prosody_rb.Client.Readers.{ReaderBuildError, open_inner, open_reader}

module _ {W : Type 0} (vm : Vm W) (p : Parsers) (fork : ForkGuard) where
  open p use {F64, Duration}

  module _ (deserialize : Value → Result Error (Option (ReadCacheConfig F64))) (read_cache : Value)
      {R : Type 0} (wait_open : ReadCachePolicy Duration → M W (Result ReaderBuildError R)) where
    open_reader-fork :
        (w : W) {reader : R} {reads : Reads} {w' : W}
        → open_reader vm p fork deserialize read_cache wait_open w ≡ (ok (reader, reads), w')
        → fork ≡ reads.fork
    unfolding open_reader
    open_reader-fork w e =
        let inner : M W R = open_inner vm p fork deserialize read_cache wait_open in
        let (reader, w1, e1, s1) =
          and_then-eq-ok (inner w) (λ r. pure (r, record { fork = fork })) e in
        cc

    -- If a client opened a reader, then in any process but the client's, every read of the reader
    -- fails with the error of the client's guard and calls nothing outside, however much happened
    -- in between. So does opening another reader there.
    pub opened-IsRefused :
        (w : W) {reader : R} {reads : Reads} {w' : W}
        → open_reader vm p fork deserialize read_cache wait_open w ≡ (ok (reader, reads), w')
        → {A : Type 0} (operation : Read W A) (later : W) → vm.process_id later ≢ fork.pid
        → IsRefused fork later (read vm reads operation)
          × IsRefused fork later (open_reader vm p fork deserialize read_cache wait_open)
    unfolding open_reader open_inner
    opened-IsRefused w {reads} e operation later other =
        let same = open_reader-fork w e in
        (
          subst (λ f. IsRefused f later (read vm reads operation)) (sym same)
              (read-IsRefused vm reads later (subst (λ f. vm.process_id later ≢ f.pid) same other)
                operation),
          refused vm fork later (λ r. pure (r, record { fork = fork }))
              (open_inner vm p fork deserialize read_cache wait_open)
              (refused vm fork later _ (check_fork vm fork)
                (check_fork-forked vm fork later other)),
        )
