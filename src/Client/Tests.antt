-- ===== src/Client/Tests.antt =====
-- A client after a fork, and a request with a bad timeout.
use prosody_rb.Base.{
  IsOk, All, is_some, ◌↔◌, ℕ, ◌≡◌, refl, negsuc, String, true, false, [], ◌∷◌, ok, arith,
}
use prosody_rb.Ruby.{Value, nil, object}
use prosody_rb.Ruby.Effects.{pure}
use prosody_rb.Ruby.Vm.{Vm}
use prosody_rb.Util.Samples.{whole_seconds}
use prosody_rb.Util.ForkGuard.{ForkGuard}
use prosody_rb.Client.Calls.{
  CoreClient, running, consumer_state, send, excise, subscribe, assigned_partition_count,
  is_stalled, unsubscribe, shut_down,
}
use prosody_rb.Client.Calls.Forked.{IsRefused, methods-IsRefused}
use prosody_rb.Client.Request.{NativeRequest, Requests, request, request_excise, request_parameters}
use prosody_rb.Client.Request.Refused.{IsUnsent, request-IsUnsent, request_parameters-IsOk}

-- A world is the identifier of its process.
abbrev vm : Vm ℕ
vm = record {
  root_module = object 0;
  class_module = object 1;
  hash_new = pure (object 2);
  const_get = λ m. λ name. pure (object 3);
  funcall = λ receiver. λ method. λ arguments. pure nil;
  new_instance = λ class. λ arguments. pure (object 4);
  to_hash_map = λ hash. pure [];
  aset = λ hash. λ key. λ v. pure tt;
  keyword = λ name. λ v. v;
  process_id = λ w. w;
}

abbrev core : CoreClient ℕ
core = record {
  ensure_runtime = λ w. w;
  Json = Value;
  deserialize = λ v. ok v;
  wait_consumer_state = pure running;
  wait_send = λ carrier. λ topic. λ key. λ payload. pure (ok tt);
  wait_excise = λ carrier. λ topic. λ key. pure (ok tt);
  wait_subscribe = λ handler. pure (ok tt);
  wait_unsubscribe = pure (ok tt);
  wait_shutdown = pure (ok tt);
  wait_partition_count = pure 3;
  wait_is_stalled = pure false;
}

abbrev fork : ForkGuard
fork = record { pid = 10; class = "Prosody::Client" }

methods-IsRefused_example :
    IsRefused fork 11 (consumer_state vm core fork)
    × IsRefused fork 11 (send vm core fork "topic" "key" nil)
    × IsRefused fork 11 (excise vm core fork "topic" "key")
    × IsRefused fork 11 (subscribe vm core fork nil)
    × IsRefused fork 11 (assigned_partition_count vm core fork)
    × IsRefused fork 11 (is_stalled vm core fork)
    × IsRefused fork 11 (unsubscribe vm core fork)
    × IsRefused fork 11 (shut_down vm core fork)
methods-IsRefused_example = methods-IsRefused vm core fork 11 (omega arith) "topic" "key" nil

abbrev bad : NativeRequest (whole_seconds.F64) Value
bad = record {
  topic = "topic";
  key = "key";
  payload = nil;
  subsystems = "billing" ∷ [];
  timeout = negsuc 0;
}

abbrev bad_excise : NativeRequest (whole_seconds.F64) (Unit {0})
bad_excise = record {
  topic = "topic";
  key = "key";
  payload = tt;
  subsystems = [];
  timeout = negsuc 4;
}

abbrev requests : Requests ℕ
requests = record {
  ensure_runtime = λ w. w;
  floats = whole_seconds;
  Json = Value;
  SubsystemName = String;
  try_subsystem = λ s. ok s;
  as_str = λ s. s;
  deserialize = λ v. ok bad;
  deserialize_excise = λ v. ok bad_excise;
  serialize = λ v. pure v;
  wait_request = λ carrier. λ n. λ subsystems. λ duration. pure (ok []);
  wait_request_excise = λ carrier. λ n. λ subsystems. λ duration. pure (ok []);
}

request-IsUnsent_example :
    IsUnsent vm requests 10 (request vm requests fork nil 10)
    × IsUnsent vm requests 10 (request_excise vm requests fork nil 10)
request-IsUnsent_example =
    request-IsUnsent vm requests fork nil 10 bad bad_excise refl refl (λ h. absurd (bad_end h.1))
      (λ h. absurd (bad_end h.1))
  where
    bad_end : ¬ (false ≡ true)
    bad_end h = cc

request_parameters-IsOk_example :
    IsOk (request_parameters vm requests ("billing" ∷ []) (negsuc 0)) ↔ (
      All (λ s. IsOk (requests.try_subsystem s)) ("billing" ∷ [])
      × (is_some (whole_seconds.try_from_secs_f64 (negsuc 0)) ≡ true))
request_parameters-IsOk_example = request_parameters-IsOk vm requests ("billing" ∷ []) (negsuc 0)
