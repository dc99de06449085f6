-- ===== src/Handler/Context/Timers/Outcome.antt =====
-- What the timer methods do with times that are refused, and with the times of the core.
use prosody_rb.Base.{
  ℕ, ◌≡◌, refl, sym, ap, ◌∙◌, ◌<◌, pos, ok, err, List, [], ◌∷◌, map as list_map, All, ◌>>=◌,
}
use prosody_rb.Ruby.{Value, Error}
use prosody_rb.Ruby.Vm.{Carrier, extract_opentelemetry_context}
use prosody_rb.Ruby.Effects.{collect_effects, lift}
use prosody_rb.Handler.Context.Time.{u32_size, time_to_compact_datetime, compact_datetime_to_time}
use prosody_rb.Handler.Context.Rounding.{
  IsTimeAt, time_to_compact_datetime-compact_datetime_to_time,
}
use prosody_rb.Handler.Context.Timers.{
  TimerWorld, application, context_schedule, context_clear_and_schedule, context_unschedule,
  context_scheduled,
}

module _ {W : Type 0} (t : TimerWorld W) where
  open t use {to_i, nsec, time_at, vm, wait_for_scheduled}

  -- The three methods that take a time fail with the error of its conversion, and call neither Ruby
  -- nor the core, if the time does not convert.
  pub context_schedule-refused :
      (v : Value) (w : W) {e : Error}
      → time_to_compact_datetime to_i nsec v ≡ err e
      → (context_schedule t v w ≡ (err e, w))
        × (context_clear_and_schedule t v w ≡ (err e, w))
        × (context_unschedule t v w ≡ (err e, w))
  unfolding context_schedule context_clear_and_schedule context_unschedule
  context_schedule-refused v w h = (rw h refl, rw h refl, rw h refl)

  -- The conversion of each of some compact times, and the compact times of the results.
  listed :
      IsTimeAt to_i nsec time_at
      → (times : List ℕ) (w : W) → All (λ n. n < u32_size) times
      → (values : List Value) × (collect_effects
            (λ n. lift (compact_datetime_to_time time_at n))
            times
            w
          ≡ (ok values, w))
        × (list_map (time_to_compact_datetime to_i nsec) values ≡ list_map ok times)
  unfolding compact_datetime_to_time
  listed law [] w h = ([], refl, refl)
  listed law (n ∷ times) w h =
      let (values, e, es) = listed law times w h.1 in
      let (v, a, _, _) = law.built (pos n) in
      let back = time_to_compact_datetime-compact_datetime_to_time to_i nsec time_at law n h.0 in
      let first = sym (ap (λ r. r >>= time_to_compact_datetime to_i nsec) a) ∙ back in
      (v ∷ values, rw (a, e) refl, rw (first, es) refl)

  -- If `Time.at` gives the start of a second, the tracing context is extracted, and the core answers
  -- with times of 32 bits, then `scheduled` gives Ruby times that convert back to those times,
  -- in order.
  pub context_scheduled-listed :
      IsTimeAt to_i nsec time_at
      → (w : W) {carrier : Carrier} {w1 w2 : W} (times : List ℕ)
      → extract_opentelemetry_context vm w ≡ (ok carrier, w1)
      → wait_for_scheduled application w1 ≡ (ok (ok times), w2)
      → All (λ n. n < u32_size) times
      → (values : List Value) × (context_scheduled t w ≡ (ok values, w2))
        × (list_map (time_to_compact_datetime to_i nsec) values ≡ list_map ok times)
  unfolding context_scheduled
  context_scheduled-listed law w {w2} times extracted answered h =
      let (values, e, es) = listed law times w2 h in (values, rw (extracted, answered, e) refl, es)
