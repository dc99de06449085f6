-- ===== src/Handler/Context/Tests.antt =====
-- Times and timers over a Ruby whose times are integers.
use prosody_rb.Base.{
  ℕ, ◌≡◌, refl, ℤ, pos, List, [], ◌∷◌, Result, ok, err, arith, ◌>>=◌, map as list_map,
}
use prosody_rb.Ruby.{Value, nil, integer, object, Error, new, type_error, lit}
use prosody_rb.Ruby.Effects.{pure}
use prosody_rb.Ruby.Vm.{Vm, extract_opentelemetry_context}
use prosody_rb.Handler.Context.Time.{
  rounding_overflow, time_to_compact_datetime, compact_datetime_to_time,
}
use prosody_rb.Handler.Context.Rounding.{
  IsTimeAt, time_to_compact_datetime-nearest, time_to_compact_datetime-compact_datetime_to_time,
}
use prosody_rb.Handler.Context.Timers.{TimerWorld, context_scheduled}
use prosody_rb.Handler.Context.Timers.Outcome.{context_scheduled-listed}

abbrev no_time : Error
no_time = new type_error (lit "no time" ∷ [])

abbrev to_i : Value → Result Error ℤ
to_i (integer t) = ok t
to_i v = err no_time

abbrev half : Value → Result Error ℕ
half v = ok 500000000

abbrev start : Value → Result Error ℕ
start v = ok 0

abbrev time_at : ℤ → Result Error Value
time_at t = ok (integer t)

abbrev time_at-IsTimeAt : IsTimeAt to_i start time_at
time_at-IsTimeAt = record { built = λ t. (integer t, refl, refl, refl) }

time_to_compact_datetime-nearest_example :
    time_to_compact_datetime to_i half (integer (pos 4294967295)) ≡ err rounding_overflow
time_to_compact_datetime-nearest_example =
    time_to_compact_datetime-nearest to_i half (integer (pos 4294967295)) (pos 4294967295) 500000000
      refl refl (omega arith)

time_to_compact_datetime-compact_datetime_to_time_example :
    (compact_datetime_to_time time_at 1700000000 >>= time_to_compact_datetime to_i start)
    ≡ ok 1700000000
time_to_compact_datetime-compact_datetime_to_time_example =
    time_to_compact_datetime-compact_datetime_to_time to_i start time_at time_at-IsTimeAt 1700000000
      (omega arith)

abbrev vm : Vm ℕ
vm = record {
  root_module = object 0;
  class_module = object 1;
  hash_new = pure (object 2);
  const_get = λ m. λ name. pure (object 3);
  funcall = λ receiver. λ method. λ arguments. pure nil;
  new_instance = λ class. λ arguments. pure (object 4);
  to_hash_map = λ hash. pure [];
  aset = λ hash. λ key. λ v. pure tt;
  keyword = λ name. λ v. v;
  process_id = λ w. w;
}

-- A core with two timers.
abbrev timers : TimerWorld ℕ
timers = record {
  to_i = to_i;
  nsec = start;
  time_at = time_at;
  vm = vm;
  wait_for = λ c. pure (ok tt);
  wait_for_scheduled = λ kind. pure (ok (5 ∷ 4294967295 ∷ []));
}

context_scheduled-listed_example :
    (values : List Value) × (context_scheduled timers 8 ≡ (ok values, 8))
    × (list_map (time_to_compact_datetime to_i start) values ≡ ok 5 ∷ ok 4294967295 ∷ [])
unfolding extract_opentelemetry_context
context_scheduled-listed_example =
    context_scheduled-listed timers time_at-IsTimeAt 8 (5 ∷ 4294967295 ∷ []) refl refl
      (omega arith, (omega arith, tt))
