-- ===== src/Ruby/Vm/Sample.antt =====
-- A Ruby for the tests: its calls have no effect and find every class.
use prosody_rb.Base.{ℕ, []}
use prosody_rb.Ruby.{nil, object}
use prosody_rb.Ruby.Effects.{pure}
use prosody_rb.Ruby.Vm.{Vm}

abbrev pub sample : {W : Type 0} → (W → ℕ) → Vm W
sample process_id = record {
  root_module = object 0;
  class_module = object 1;
  hash_new = pure (object 2);
  const_get = λ m. λ name. pure (object 3);
  funcall = λ receiver. λ method. λ arguments. pure nil;
  new_instance = λ class. λ arguments. pure (object 4);
  to_hash_map = λ hash. pure [];
  aset = λ hash. λ key. λ v. pure tt;
  keyword = λ name. λ v. v;
  process_id = process_id;
}
