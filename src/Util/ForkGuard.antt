-- ===== src/Util/ForkGuard.antt =====
-- `ForkGuard` of ext/prosody/src/util.rs. The current process identifier is an argument.
use prosody_rb.Base.{ℕ, String, Result, ok, err, [], ◌∷◌, ◌==◌, if◌then◌else◌}
use prosody_rb.Ruby.{Error, new, runtime_error, lit}

pub record ForkGuard : Type 0 where
  pub pid : ℕ
  pub class : String

unfoldable pub create : ℕ → String → ForkGuard
create process_id class = record { pid = process_id; class = class }

abbrev pub after_fork : String → Error
after_fork class =
    new runtime_error
      (lit class ∷ lit " cannot be used after fork. Create a new client in the child process." ∷ [])

unfoldable pub check : ForkGuard → ℕ → Result Error (Unit {0})
check guard process_id = if process_id == guard.pid then ok tt else err (after_fork guard.class)
