-- ===== src/Client/Calls/Forked.antt =====
-- What the methods of a client do in a forked child process.
use prosody_rb.Base.{◌≡◌, ◌≢◌, ap, String, err, arith}
use prosody_rb.Ruby.{Value}
use prosody_rb.Ruby.Effects.{M, and_then}
use prosody_rb.Ruby.Vm.{Vm}
use prosody_rb.Util.ForkGuard.{ForkGuard, check, after_fork}
use prosody_rb.Client.Calls.{
  CoreClient, check_fork, consumer_state, send, excise, subscribe, assigned_partition_count,
  is_stalled, unsubscribe, shut_down,
}

-- A call fails with the guard's error and does nothing outside.
abbrev pub IsRefused : {W A : Type 0} → ForkGuard → W → M W A → Type 0
IsRefused fork w call = call w ≡ (err (after_fork fork.class), w)

module _ {W : Type 0} (vm : Vm W) (fork : ForkGuard) where
  pub check_fork-forked :
      (w : W) → vm.process_id w ≢ fork.pid → IsRefused fork w (check_fork vm fork)
  unfolding check_fork check
  check_fork-forked w h = ground arith

  pub refused :
      {A B : Type 0} (w : W) (f : A → M W B) (m : M W A)
      → IsRefused fork w m
      → and_then (m w) f ≡ (err (after_fork fork.class), w)
  refused w f m h = ap (λ r. and_then r f) h

module _ {W : Type 0} (vm : Vm W) (core : CoreClient W) (fork : ForkGuard) where
  -- In a process other than the one that created the client, each of its eight guarded methods
  -- fails with the guard's error, and calls neither Ruby nor the core.
  pub methods-IsRefused :
      (w : W)
      → vm.process_id w ≢ fork.pid
      → (topic key : String) (v : Value)
      → IsRefused fork w (consumer_state vm core fork)
        × IsRefused fork w (send vm core fork topic key v)
        × IsRefused fork w (excise vm core fork topic key)
        × IsRefused fork w (subscribe vm core fork v)
        × IsRefused fork w (assigned_partition_count vm core fork)
        × IsRefused fork w (is_stalled vm core fork)
        × IsRefused fork w (unsubscribe vm core fork)
        × IsRefused fork w (shut_down vm core fork)
  unfolding consumer_state send excise subscribe assigned_partition_count is_stalled unsubscribe
      shut_down
  methods-IsRefused w h topic key v = let no = check_fork-forked vm fork w h in ground (arith, no)
