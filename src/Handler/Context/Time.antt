-- ===== src/Handler/Context/Time.antt =====
-- `time_to_compact_datetime` and `compact_datetime_to_time` of
-- ext/prosody/src/handler/context/mod.rs. A `CompactDateTime` is its count of seconds since 1970,
-- a u32. The Ruby methods `to_i` and `nsec` of a time, and `Time.at`, are parameters.
use prosody_rb.Base.{
  ℕ, ◌+◌, ℤ, pos, negsuc, Option, none, some, Result, ok, [], ◌∷◌, ◌>>=◌, ok_or, ltb, leb,
  if◌then◌else◌,
}
use prosody_rb.Ruby.{Value, Error, new, argument_error, lit, signed}

abbrev pub u32_size : ℕ
u32_size = 4294967296

abbrev pub nanosecond_rounding_threshold : ℕ
nanosecond_rounding_threshold = 500000000

-- `u32::try_from` on an i64.
unfoldable pub u32_try_from : ℤ → Option ℕ
u32_try_from (pos n) = if ltb n u32_size then some n else none
u32_try_from (negsuc n) = none

-- `u32::checked_add`
unfoldable pub checked_add : ℕ → ℕ → Option ℕ
checked_add a b = if ltb (a + b) u32_size then some (a + b) else none

abbrev pub out_of_range : ℤ → Error
out_of_range t =
    new argument_error
      (lit "Time " ∷ signed t ∷ lit " is outside CompactDateTime range (1970-2106)" ∷ [])

abbrev pub rounding_overflow : Error
rounding_overflow = new argument_error (lit "Time overflow during rounding to nearest second" ∷ [])

-- The last part of the function: round to the nearest second.
unfoldable pub round_seconds : ℕ → ℕ → Result Error ℕ
unfolding checked_add
round_seconds seconds nanos =
    if leb nanosecond_rounding_threshold nanos
    then ok_or rounding_overflow (checked_add seconds 1)
    else ok seconds

module _ (to_i : Value → Result Error ℤ) (nsec : Value → Result Error ℕ) where
  unfoldable pub time_to_compact_datetime : Value → Result Error ℕ
  unfolding round_seconds u32_try_from
  time_to_compact_datetime ruby_time = do
    epoch_seconds ← to_i ruby_time
    nanos ← nsec ruby_time
    seconds ← ok_or (out_of_range epoch_seconds) (u32_try_from epoch_seconds)
    round_seconds seconds nanos

module _ (time_at : ℤ → Result Error Value) where
  unfoldable pub compact_datetime_to_time : ℕ → Result Error Value
  compact_datetime_to_time epoch_seconds = time_at (pos epoch_seconds)
