-- ===== src/Util/Samples.antt =====
-- Numbers of seconds for the tests: whole numbers, where a negative one is no duration.
use prosody_rb.Base.{ℕ, ℤ, pos, negsuc, Option, none, some}
use prosody_rb.Util.Seconds.{Floats}

abbrev whole : ℤ → Option ℕ
whole (pos n) = some n
whole (negsuc n) = none

abbrev pub whole_seconds : Floats
whole_seconds = record { F64 = ℤ; Duration = ℕ; try_from_secs_f64 = whole }
