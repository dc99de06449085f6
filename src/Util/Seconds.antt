-- ===== src/Util/Seconds.antt =====
-- `seconds` of ext/prosody/src/util.rs. Floating-point numbers, durations and the standard
-- library's `Duration::try_from_secs_f64` are parameters.
use prosody_rb.Base.{String, Option, Result, [], ◌∷◌, ok_or}
use prosody_rb.Ruby.{Message, lit}

pub record Floats : Type 1 where
  pub F64 : Type 0
  pub Duration : Type 0
  -- `none` for a number that is negative, not finite, or too large.
  pub try_from_secs_f64 : F64 → Option Duration

abbrev pub not_seconds : String → Message
not_seconds option = lit option ∷ lit ": must be a finite, non-negative number of seconds" ∷ []

module _ (fl : Floats) where
  open fl use {F64, Duration, try_from_secs_f64}

  unfoldable pub seconds : String → F64 → Result Message Duration
  seconds option value = ok_or (not_seconds option) (try_from_secs_f64 value)
