-- ===== src/Published/Tests.antt =====
-- Published readers of another process.
use prosody_rb.Base.{ℕ, refl, arith, true, Option, none, some, [], String, Result, ok, err}
use prosody_rb.Ruby.{Value, nil, string, Error, new, type_error}
use prosody_rb.Ruby.Effects.{pure, M}
use prosody_rb.Ruby.Vm.Sample.{sample}
use prosody_rb.Ruby.Vm.{Vm}
use prosody_rb.Handler.State.Cursor.{StateCursor}
use prosody_rb.Handler.State.Query.{key_query, position_query}
use prosody_rb.Published.{
  Reads, SharedValueReader, SharedMapReader, SharedSetReader, SharedDequeReader,
}
use prosody_rb.Published.Forked.{ReadsRefused, ScansRefused, published-IsRefused}

-- The world is the number of the process.
abbrev vm : Vm ℕ
vm = sample (λ w. w)

abbrev reads : Reads
reads = record { fork = record { pid = 1; class = "Prosody::Client" } }

abbrev empty : {A : Type 0} → StateCursor ℕ A
empty = record { wait_next_ready_chunk = λ n. λ context. pure (ok none); wait_close = pure tt }

abbrev of_values : SharedValueReader ℕ Value
of_values = record { wait_get = λ key. λ context. pure (ok (some (string key))) }

abbrev of_maps : SharedMapReader ℕ Value
of_maps = record {
  wait_get = λ key. λ item. λ context. pure (ok (some (string item)));
  wait_get_many = λ key. λ items. λ context. pure (ok []);
  wait_contains_many = λ key. λ items. λ context. pure (ok []);
  wait_is_empty = λ key. λ context. pure (ok true);
  wait_contains_key = λ key. λ item. λ context. pure (ok true);
  stream_entries = λ key. λ query. empty;
  stream_keys = λ key. λ query. empty;
}

abbrev of_sets : SharedSetReader ℕ
of_sets = record {
  wait_contains = λ key. λ item. λ context. pure (ok true);
  wait_contains_many = λ key. λ items. λ context. pure (ok []);
  wait_is_empty = λ key. λ context. pure (ok true);
  stream_keys = λ key. λ query. empty;
}

abbrev of_deques : SharedDequeReader ℕ Value
of_deques = record {
  wait_get = λ key. λ index. λ context. pure (ok none);
  wait_len = λ key. λ context. pure (ok 0);
  wait_is_empty = λ key. λ context. pure (ok true);
  wait_peek_front = λ key. λ context. pure (ok none);
  wait_peek_back = λ key. λ context. pure (ok none);
  stream_values = λ key. λ query. empty;
}

abbrev to_string : Value → Result Error String
to_string (string s) = ok s
to_string _ = err (new type_error [])

abbrev json : Option Value → M ℕ Value
json none = pure nil
json (some v) = pure v

published-IsRefused_example :
    ReadsRefused vm reads 2 json
      (λ items. pure nil)
      of_values
      of_maps
      of_sets
      of_deques
      "user"
      "a"
      []
      3
    × ScansRefused vm reads 2 json
        (λ items. pure nil)
        of_values
        of_maps
        of_sets
        of_deques
        to_string
        "user"
        "backward"
        []
unfolding key_query position_query
published-IsRefused_example =
    published-IsRefused vm reads 2 json (λ items. pure nil) of_values of_maps of_sets of_deques
      (omega arith) "user" "a" [] 3 to_string "backward" [] refl refl
