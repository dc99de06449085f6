-- ===== src/Client/Start/Valid.antt =====
-- The core is started with a valid configuration, or not at all.
use prosody_rb.Base.{
  String, Bool-cases, true, ◌≡◌, ap, sym, ◌∙◌, List, Result, ok, err, IsOk, inl, inr, subst,
}
use prosody_rb.Ruby.{Value, Message}
use prosody_rb.Ruby.Effects.{M, ◌>>=◌, ◌>>◌, and_then, and_then-eq-ok, pure}
use prosody_rb.Ruby.Vm.{Vm}
use prosody_rb.Util.ForkGuard.{create}
use prosody_rb.Client.Config.Core.{Parsers}
use prosody_rb.Client.Config.Native.{NativeConfiguration}
use prosody_rb.Client.Config.Fields.{IsDuration}
use prosody_rb.Client.Config.Connections.{
  ProducerSetting, CassandraSetting, producer_builder, cassandra_builder,
}
use prosody_rb.Client.Config.Consumers.{
  Mode, parse_mode, Builds, ConsumerBuilders, consumer_builders,
}
use prosody_rb.Client.Config.Valid.{producer_builder-IsOk}
use prosody_rb.Client.Start.{
  Starting, Client, arg_error, core_result, bridge, native_config, settings, start, new_client,
}

module _ {W : Type 0} (vm : Vm W) (p : Parsers) (b : Builds p) (s : Starting p b W) where
  open s use {
    Core, require_opentelemetry, ensure_runtime, has_bridge, default_mode, wait_new_erased,
  }

  arg_error-eq-ok :
      {A : Type 0} (r : Result Message A) (w : W) {a : A} {w' : W}
      → arg_error vm p b s r w ≡ (ok a, w')
      → (r ≡ ok a) × (w ≡ w')
  arg_error-eq-ok (ok x) w e = (cc, cc)
  arg_error-eq-ok (err m) w e = cc

  core_result-eq-ok :
      {A : Type 0} (r : Result String A) (w : W) {a : A} {w' : W}
      → core_result vm p b s r w ≡ (ok a, w')
      → (r ≡ ok a) × (w ≡ w')
  core_result-eq-ok (ok x) w e = (cc, cc)
  core_result-eq-ok (err m) w e = cc

  -- The four conversions succeed, and there is a bridge.
  pub record IsValid (c : NativeConfiguration p.F64) (w : W) (mode : Mode)
      (producer : List (ProducerSetting p.Duration)) (consumers : ConsumerBuilders p b)
      (cassandra : List (CassandraSetting p.Duration)) : Type 0 where
    pub mode_ok : parse_mode default_mode c.mode ≡ ok mode
    pub consumers_ok : consumer_builders p b c ≡ ok consumers
    pub bridge_ok : has_bridge w ≡ true
    pub cassandra_ok : cassandra_builder p c ≡ ok cassandra
    pub producer_ok : producer_builder p c ≡ ok producer

  -- The chain of the conversions, whatever their results are.
  module _ {A B C D : Type 0} where
    abbrev chain :
        Result Message A
        → Result Message B
        → Result Message C
        → Result Message D
        → M W (A × D × B × C)
    chain r1 r2 r3 r4 = do
      x1 ← arg_error vm p b s r1
      x2 ← arg_error vm p b s r2
      bridge vm p b s
      x3 ← arg_error vm p b s r3
      x4 ← arg_error vm p b s r4
      pure (x1, x4, x2, x3)

    chain_end :
        (x1 : A) (x2 : B) (r3 : Result Message C) (r4 : Result Message D) (w : W) {a : A} {b' : B}
        {c : C} {d : D} {w' : W}
        → and_then {B = A × D × B × C}
            (arg_error vm p b s r3 w)
            (λ x3. arg_error vm p b s r4 >>= λ x4. pure (x1, x4, x2, x3))
          ≡ (ok (a, d, b', c), w')
        → (x1 ≡ a) × (x2 ≡ b') × (r3 ≡ ok c) × (r4 ≡ ok d) × (w ≡ w')
    chain_end x1 x2 (err m) r4 w e = cc
    chain_end x1 x2 (ok x3) (err m) w e = cc
    chain_end x1 x2 (ok x3) (ok x4) w e = (cc, cc, cc, cc, cc)

    chain-eq-ok :
        (r1 : Result Message A) (r2 : Result Message B) (r3 : Result Message C)
        (r4 : Result Message D) (w : W) {a : A} {b' : B} {c : C} {d : D} {w' : W}
        → chain r1 r2 r3 r4 w ≡ (ok (a, d, b', c), w')
        → (r1 ≡ ok a) × (r2 ≡ ok b') × (has_bridge w ≡ true) × (r3 ≡ ok c) × (r4 ≡ ok d) × (w ≡ w')
    chain-eq-ok (err m) r2 r3 r4 w e = cc
    chain-eq-ok (ok x1) (err m) r3 r4 w e = cc
    chain-eq-ok (ok x1) (ok x2) r3 r4 w e = elim (Bool-cases (has_bridge w)) [
      | inl up ↦
          let (same1, same2, e3, e4, left) = chain_end x1 x2 r3 r4 w (rw up at e) in
          (ap ok same1, ap ok same2, up, e3, e4, left)
      | inr down ↦ let e' = rw down at e in cc
    ]

  started :
      (m : Mode) (producer : List (ProducerSetting p.Duration)) (consumers : ConsumerBuilders p b)
      (cassandra : List (CassandraSetting p.Duration)) (w : W) {c : Client Core} {w' : W}
      → start vm p b s (m, producer, consumers, cassandra) w ≡ (ok c, w')
      → (wait_new_erased m producer consumers cassandra w ≡ (ok (ok c.inner), w'))
        × (c.fork ≡ create (vm.process_id w') "Prosody::Client")
  unfolding start
  started m producer consumers cassandra w {c} {w'} e =
      let made : Core → M W (Client Core) = λ client. λ u.
        (ok (record { inner = client; fork = create (vm.process_id u) "Prosody::Client" }), u) in
      let (reply, w1, replied, e1) =
        and_then-eq-ok (wait_new_erased m producer consumers cassandra w)
          (λ reply. core_result vm p b s reply >>= made) e in
      let (client, w2, e2, e3) = and_then-eq-ok (core_result vm p b s reply w1) made e1 in
      let (good, same) = core_result-eq-ok reply w1 e2 in
      let same_w : w2 ≡ w' = cc in
      let same_c : record { inner = client; fork = create (vm.process_id w2) "Prosody::Client" }
          ≡ c =
        cc in
      let same_inner : client ≡ c.inner = ap (λ k. k.inner) same_c in
      (
        cc,
        sym (ap (λ k. k.fork) same_c) ∙ ap (λ u. create (vm.process_id u) "Prosody::Client") same_w,
      )

  pub new_client-IsValid :
      (config : Value) (w : W) {c : Client Core} {w' : W}
      → new_client vm p b s config w ≡ (ok c, w')
      → (native : NativeConfiguration p.F64) × (mode : Mode) × (producer : List
          (ProducerSetting p.Duration))
        × (consumers : ConsumerBuilders p b) × (cassandra : List (CassandraSetting p.Duration))
        × (w1 : W) × (w2 : W) × (w3 : W) × (require_opentelemetry w ≡ (ok tt, w1))
        × (native_config vm p b s config (ensure_runtime w1) ≡ (ok native, w2))
        × (settings vm p b s native w2 ≡ (ok (mode, producer, consumers, cassandra), w3))
        × IsValid native w3 mode producer consumers cassandra
        × (wait_new_erased mode producer consumers cassandra w3 ≡ (ok (ok c.inner), w'))
        × (c.fork ≡ create (vm.process_id w') "Prosody::Client")
        × IsDuration p.floats native.send_timeout
  unfolding new_client settings
  new_client-IsValid config w e =
      let (u, w1, e1, s1) = and_then-eq-ok (require_opentelemetry w) _ e in
      let (native, w2, e2, s2) =
        and_then-eq-ok (native_config vm p b s config (ensure_runtime w1))
          (λ native. settings vm p b s native >>= start vm p b s) s1 in
      let ((mode, producer, consumers, cassandra), w3, e3, s3) =
        and_then-eq-ok (settings vm p b s native w2) (start vm p b s) s2 in
      let (mode_ok, consumers_ok, bridge_ok, cassandra_ok, producer_ok, same) =
        chain-eq-ok (parse_mode default_mode native.mode) (consumer_builders p b native)
          (cassandra_builder p native) (producer_builder p native) w2 e3 in
      let (sent, guarded) = started mode producer consumers cassandra w3 s3 in
      (
        native,
        mode,
        producer,
        consumers,
        cassandra,
        w1,
        w2,
        w3,
        e1,
        e2,
        e3,
        record {
          mode_ok = mode_ok;
          consumers_ok = consumers_ok;
          bridge_ok = subst (λ v. has_bridge v ≡ true) same bridge_ok;
          cassandra_ok = cassandra_ok;
          producer_ok = producer_ok;
        },
        sent,
        guarded,
        (producer_builder-IsOk p native).0 (subst IsOk (sym producer_ok) tt),
      )
