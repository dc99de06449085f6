-- ===== src/Published/Forked.antt =====
-- Published readers in a forked child process.
use prosody_rb.Base.{ℕ, ◌≡◌, ◌≢◌, String, Option, List, Result, ok}
use prosody_rb.Ruby.{Value, Error}
use prosody_rb.Ruby.Effects.{M, ◌>>=◌, ◌>>◌, lift, pure}
use prosody_rb.Ruby.Vm.{Vm}
use prosody_rb.Handler.State.Handles.{run_state}
use prosody_rb.Handler.State.Query.{Query, key_query, position_query}
use prosody_rb.Client.Calls.{check_fork}
use prosody_rb.Client.Calls.Forked.{IsRefused, check_fork-forked, refused}
use prosody_rb.Published.{
  Reads, Read, read, read_json, scan_parts, published_keys, SharedValueReader, SharedMapReader,
  SharedSetReader, SharedDequeReader, published_value_get, published_map_get,
  published_map_get_many, published_map_contains_many, published_map_is_empty,
  published_map_contains_key, published_map_scan, published_map_keys, published_deque_get,
  published_deque_length, published_deque_is_empty, published_deque_peek_front,
  published_deque_peek_back, published_deque_scan, published_set_contains,
  published_set_contains_many, published_set_is_empty, published_set_keys,
}

-- Every method of the four readers is refused, with nothing done outside.
module _ {W Json : Type 0} (vm : Vm W) (reads : Reads) (w : W) (serialize : Option Json → M W Value)
    (serialize_all : List (Option Json) → M W Value) (value : SharedValueReader W Json)
    (map : SharedMapReader W Json) (set : SharedSetReader W)
    (deque : SharedDequeReader W Json) where
  abbrev pub ReadsRefused : String → String → List String → ℕ → Type 0
  ReadsRefused key item items index =
      IsRefused reads.fork w (published_value_get vm reads serialize value key)
      × IsRefused reads.fork w (published_map_get vm reads serialize map key item)
      × IsRefused reads.fork w
          (published_map_get_many vm reads serialize map serialize_all key items)
      × IsRefused reads.fork w (published_map_contains_many vm reads serialize map key items)
      × IsRefused reads.fork w (published_map_is_empty vm reads serialize map key)
      × IsRefused reads.fork w (published_map_contains_key vm reads serialize map key item)
      × IsRefused reads.fork w (published_set_contains vm reads set key item)
      × IsRefused reads.fork w (published_set_contains_many vm reads set key items)
      × IsRefused reads.fork w (published_set_is_empty vm reads set key)
      × IsRefused reads.fork w (published_deque_get vm reads serialize deque key index)
      × IsRefused reads.fork w (published_deque_length vm reads serialize deque key)
      × IsRefused reads.fork w (published_deque_is_empty vm reads serialize deque key)
      × IsRefused reads.fork w (published_deque_peek_front vm reads serialize deque key)
      × IsRefused reads.fork w (published_deque_peek_back vm reads serialize deque key)

  abbrev pub ScansRefused :
      (Value → Result Error String) → String → String → List (String × Value) → Type 0
  ScansRefused try_convert key direction options =
      IsRefused reads.fork w
        (published_map_scan vm reads serialize map try_convert key direction options)
      × IsRefused reads.fork w
          (published_map_keys vm reads serialize map try_convert key direction options)
      × IsRefused reads.fork w (published_set_keys vm reads set try_convert key direction options)
      × IsRefused reads.fork w (published_deque_scan vm reads serialize deque key direction options)

module _ {W : Type 0} (vm : Vm W) (reads : Reads) (w : W)
    (other : vm.process_id w ≢ reads.fork.pid) where
  pub read-IsRefused :
      {A : Type 0} (operation : Read W A) → IsRefused reads.fork w (read vm reads operation)
  unfolding read
  read-IsRefused operation =
      refused vm reads.fork w (λ _. run_state vm operation) (check_fork vm reads.fork)
        (check_fork-forked vm reads.fork w other)

  read_json-IsRefused :
      {Json : Type 0} (serialize : Option Json → M W Value) (operation : Read W (Option Json))
      → IsRefused reads.fork w (read_json vm reads serialize operation)
  unfolding read_json
  read_json-IsRefused serialize operation =
      refused vm reads.fork w serialize (read vm reads operation) (read-IsRefused operation)

  -- A query that is right, and then the guard.
  scan-IsRefused :
      {Q A : Type 0} (r : Result Error Q) (stream : Q → A) {query : Q}
      → r ≡ ok query
      → IsRefused reads.fork w (lift r >>= λ q. scan_parts vm reads >> pure (stream q))
  unfolding scan_parts
  scan-IsRefused r stream {query} e = rw (e) (
      refused vm reads.fork w (λ _. pure (stream query)) (check_fork vm reads.fork)
        (check_fork-forked vm reads.fork w other))

module _ {W Json : Type 0} (vm : Vm W) (reads : Reads) (w : W) (serialize : Option Json → M W Value)
    (serialize_all : List (Option Json) → M W Value) (value : SharedValueReader W Json)
    (map : SharedMapReader W Json) (set : SharedSetReader W)
    (deque : SharedDequeReader W Json) where
  -- In a process other than the one that opened them, every read of a published value, map, set or
  -- deque fails with the guard's error, and calls neither Ruby nor the core. The same holds of
  -- every scan whose query is right.
  pub published-IsRefused :
      vm.process_id w ≢ reads.fork.pid
      → (key item : String) (items : List String) (index : ℕ)
        (try_convert : Value → Result Error String) (direction : String)
        (options : List (String × Value)) {keys : Query String} {positions : Query ℕ}
      → key_query try_convert direction options ≡ ok keys
      → position_query direction options ≡ ok positions
      → ReadsRefused vm reads w serialize serialize_all value map set deque key item items index
        × ScansRefused vm reads w serialize serialize_all value map set deque try_convert key
            direction options
  unfolding published_value_get published_map_get published_map_get_many published_map_contains_many
      published_map_is_empty published_map_contains_key published_map_scan published_map_keys
      published_keys published_deque_get published_deque_length published_deque_is_empty
      published_deque_peek_front published_deque_peek_back published_deque_scan
      published_set_contains published_set_contains_many published_set_is_empty published_set_keys
  published-IsRefused other key item items index try_convert direction options k p = (
    (
      read_json-IsRefused vm reads w other serialize _,
      read_json-IsRefused vm reads w other serialize _,
      refused vm reads.fork w serialize_all (read vm reads (map.wait_get_many key items))
          (read-IsRefused vm reads w other (map.wait_get_many key items)),
      read-IsRefused vm reads w other _,
      read-IsRefused vm reads w other _,
      read-IsRefused vm reads w other _,
      read-IsRefused vm reads w other _,
      read-IsRefused vm reads w other _,
      read-IsRefused vm reads w other _,
      read_json-IsRefused vm reads w other serialize _,
      read-IsRefused vm reads w other _,
      read-IsRefused vm reads w other _,
      read_json-IsRefused vm reads w other serialize _,
      read_json-IsRefused vm reads w other serialize _,
    ),
    (
      scan-IsRefused vm reads w other (key_query try_convert direction options)
          (map.stream_entries key) k,
      scan-IsRefused vm reads w other (key_query try_convert direction options)
          (map.stream_keys key) k,
      scan-IsRefused vm reads w other (key_query try_convert direction options)
          (set.stream_keys key) k,
      scan-IsRefused vm reads w other (position_query direction options) (deque.stream_values key)
          p,
    ),
  )
