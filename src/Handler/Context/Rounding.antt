-- ===== src/Handler/Context/Rounding.antt =====
-- What the conversion between a Ruby time and a compact time does: rounding, range, round trip.
use prosody_rb.Base.{
  ℕ, ◌+◌, ◌*◌, ◌/◌, ◌<◌, ℤ, pos, negsuc, ◌≡◌, Result, ok, err, arith, ltb, if◌then◌else◌, ◌>>=◌,
}
use prosody_rb.Ruby.{Value, Error}
use prosody_rb.Handler.Context.Time.{
  u32_size, out_of_range, rounding_overflow, time_to_compact_datetime, compact_datetime_to_time,
}

-- The nearest second, with a half rounded up.
abbrev pub nearest_second : ℕ → ℕ → ℕ
nearest_second seconds nanos = (seconds * 1000000000 + nanos + 500000000) / 1000000000

-- The compact time of a Ruby time: the nearest second where it lies in the range of a u32. Whole
-- seconds outside that range are refused, and so is the one half second that rounds out of it.
abbrev pub nearest_compact : ℤ → ℕ → Result Error ℕ
nearest_compact (negsuc n) nanos = err (out_of_range (negsuc n))
nearest_compact (pos seconds) nanos =
    if ltb (nearest_second seconds nanos) u32_size
    then ok (nearest_second seconds nanos)
    else if ltb seconds u32_size
    then err rounding_overflow
    else err (out_of_range (pos seconds))

-- A Ruby time with less than 10 ^ 9 nanoseconds converts to the nearest second, halves up, if that
-- second fits 32 bits. A time before 1970 or with too many whole seconds is refused with the range
-- error, and one that only rounding takes out of 32 bits with the overflow error.
pub time_to_compact_datetime-nearest :
    (to_i : Value → Result Error ℤ) (nsec : Value → Result Error ℕ) (v : Value) (seconds : ℤ)
    (nanos : ℕ)
    → to_i v ≡ ok seconds
    → nsec v ≡ ok nanos
    → nanos < 1000000000
    → time_to_compact_datetime to_i nsec v ≡ nearest_compact seconds nanos
unfolding time_to_compact_datetime
time_to_compact_datetime-nearest to_i nsec v (pos seconds) nanos e e' h = ground arith
time_to_compact_datetime-nearest to_i nsec v (negsuc n) nanos e e' h = ground arith

-- `Time.at` gives a time at the start of the second that it is given.
pub record IsTimeAt (to_i : Value → Result Error ℤ) (nsec : Value → Result Error ℕ)
    (time_at : ℤ → Result Error Value) : Type 0 where
  pub built : (t : ℤ) → (v : Value) × (time_at t ≡ ok v) × (to_i v ≡ ok t) × (nsec v ≡ ok 0)

-- Where `Time.at` gives a time at the start of the second that it is given, a compact time that is
-- turned into a Ruby time and back is the same compact time.
pub time_to_compact_datetime-compact_datetime_to_time :
    (to_i : Value → Result Error ℤ) (nsec : Value → Result Error ℕ)
    (time_at : ℤ → Result Error Value)
    → IsTimeAt to_i nsec time_at
    → (n : ℕ) → n < u32_size
    → (compact_datetime_to_time time_at n >>= time_to_compact_datetime to_i nsec) ≡ ok n
unfolding time_to_compact_datetime compact_datetime_to_time
time_to_compact_datetime-compact_datetime_to_time to_i nsec time_at law n h =
    let (v, a, b, c) = law.built (pos n) in ground arith
