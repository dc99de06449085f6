-- ===== src/Client/Config/Valid.antt =====
-- Which configurations the builders accept.
use prosody_rb.Base.{ℕ, zero, suc, refl, ◌≢◌, ◌↔◌, Option, none, some, arith, IsOk}
use prosody_rb.Client.Config.Core.{Parsers}
use prosody_rb.Client.Config.Native.{
  NativeConfiguration, ProbePort, unconfigured, disabled, configured,
}
use prosody_rb.Client.Config.Fields.{
  plain, checked, apply_fields-IsOk, IsGood, IsDuration, timed-IsGood,
}
use prosody_rb.Client.Config.Connections.{
  producer_builder, producer_fields, consumer_builder, consumer_fields, probe_field, send_timeout,
  stall_threshold, shutdown_timeout, poll_interval, commit_interval, statistics_interval, slab_size,
}
use prosody_rb.Client.Config.Middleware.{
  deduplication_builder, deduplication_fields, positive_capacity, ttl,
}

plain-IsGood : {A S : Type 0} (v : Option A) (f : A → S) → IsGood (plain v f)
plain-IsGood none f = tt
plain-IsGood (some a) f = tt

probe_field-IsGood :
    (p : Parsers) (Loader : Type 0) (v : Option ProbePort)
    → IsGood (probe_field p {Loader = Loader} v)
probe_field-IsGood p Loader none = tt
probe_field-IsGood p Loader (some unconfigured) = tt
probe_field-IsGood p Loader (some disabled) = tt
probe_field-IsGood p Loader (some (configured port)) = tt

module _ (p : Parsers) where
  open p use {F64, Duration, floats}

  -- The producer conversion succeeds exactly when the send timeout is absent or a duration.
  pub producer_builder-IsOk :
      (c : NativeConfiguration F64)
      → IsOk (producer_builder p c) ↔ (IsDuration floats c.send_timeout)
  unfolding producer_builder
  producer_builder-IsOk c =
      let good = apply_fields-IsOk (producer_fields p c) in
      let t0 = timed-IsGood floats "send_timeout" c.send_timeout send_timeout in
      (
        λ h. t0.0 (good.0 h).1.0,
        λ h. good.1 (
          plain-IsGood _ _,
          (t0.1 h, (plain-IsGood _ _, (plain-IsGood _ _, (plain-IsGood _ _, tt)))),
        ),
      )

  -- The consumer conversion succeeds exactly when each of its six times is absent or a duration.
  pub consumer_builder-IsOk :
      (Loader : Type 0) (c : NativeConfiguration F64)
      → IsOk (consumer_builder p {Loader = Loader} c) ↔ (
          IsDuration floats c.stall_threshold
          × IsDuration floats c.shutdown_timeout
          × IsDuration floats c.poll_interval
          × IsDuration floats c.commit_interval
          × IsDuration floats c.statistics_interval
          × IsDuration floats c.slab_size)
  unfolding consumer_builder
  consumer_builder-IsOk Loader c =
      let good = apply_fields-IsOk (consumer_fields p {Loader = Loader} c) in
      let t0 = timed-IsGood floats "stall_threshold" c.stall_threshold stall_threshold in
      let t1 = timed-IsGood floats "shutdown_timeout" c.shutdown_timeout shutdown_timeout in
      let t2 = timed-IsGood floats "poll_interval" c.poll_interval poll_interval in
      let t3 = timed-IsGood floats "commit_interval" c.commit_interval commit_interval in
      let t4 =
        timed-IsGood floats "statistics_interval" c.statistics_interval statistics_interval in
      let t5 = timed-IsGood floats "slab_size" c.slab_size slab_size in
      (
        λ h. (
          t0.0 (good.0 h).1.1.1.1.1.0,
          t1.0 (good.0 h).1.1.1.1.1.1.0,
          t2.0 (good.0 h).1.1.1.1.1.1.1.0,
          t3.0 (good.0 h).1.1.1.1.1.1.1.1.0,
          t4.0 (good.0 h).1.1.1.1.1.1.1.1.1.0,
          t5.0 (good.0 h).1.1.1.1.1.1.1.1.1.1.1.1.0,
        ),
        λ h. good.1 (
          plain-IsGood _ _,
          (
            plain-IsGood _ _,
            (
              plain-IsGood _ _,
              (
                plain-IsGood _ _,
                (
                  plain-IsGood _ _,
                  (
                    t0.1 h.0,
                    (
                      t1.1 h.1,
                      (
                        t2.1 h.2,
                        (
                          t3.1 h.3,
                          (
                            t4.1 h.4,
                            (
                              plain-IsGood _ _,
                              (probe_field-IsGood p Loader c.probe_port, (t5.1 h.5, tt)),
                            ),
                          ),
                        ),
                      ),
                    ),
                  ),
                ),
              ),
            ),
          ),
        ),
      )

  abbrev IsPositive : Option ℕ → Type 0
  IsPositive v = v ≢ some 0

  capacity-IsGood :
      (v : Option ℕ) → IsGood (checked v (positive_capacity {Duration = Duration})) ↔ IsPositive v
  capacity-IsGood none = (λ h. λ e. cc, λ h. tt)
  capacity-IsGood (some zero) = (λ h. absurd h, λ h. absurd (h refl))
  capacity-IsGood (some (suc n)) = (λ h. λ e. ground arith, λ h. tt)

  -- The deduplication conversion succeeds exactly when the cache size is not a given zero and the
  -- time to live is absent or a duration.
  pub deduplication_builder-IsOk :
      (c : NativeConfiguration F64)
      → IsOk (deduplication_builder p c)
        ↔ ((c.idempotence_cache_size ≢ some 0) × IsDuration floats c.idempotence_ttl)
  unfolding deduplication_builder
  deduplication_builder-IsOk c =
      let good = apply_fields-IsOk (deduplication_fields p c) in
      let n = capacity-IsGood c.idempotence_cache_size in
      let t = timed-IsGood floats "idempotence_ttl" c.idempotence_ttl ttl in
      (
        λ h. (n.0 (good.0 h).0, t.0 (good.0 h).1.1.0),
        λ h. good.1 (n.1 h.0, (plain-IsGood _ _, (t.1 h.1, tt))),
      )
