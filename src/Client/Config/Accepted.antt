-- ===== src/Client/Config/Accepted.antt =====
-- No time that is no duration gets past the consumer options.
use prosody_rb.Base.{
  String, Bool-cases, false, ◌≡◌, refl, sym, ◌∙◌, inl, inr, arith, Option, none, ◌≢◌, some, Result,
  ok, err, ◌>>=◌, IsOk,
}
use prosody_rb.Client.Config.Core.{Parsers}
use prosody_rb.Client.Config.Native.{NativeConfiguration, ReadCacheConfig}
use prosody_rb.Client.Config.Fields.{
  apply_fields, apply_fields-IsOk, IsDuration, IsGood, timed-IsGood,
}
use prosody_rb.Client.Config.Middleware.{
  retry_builder, retry_fields, scheduler_builder, scheduler_fields, monopolization_builder,
  monopolization_fields, defer_builder, defer_fields, timeout_builder, timeout_fields,
  deduplication_builder, RetrySetting, max_wait, window_duration, DeferSetting, failure_window,
  TimeoutSetting,
}
use prosody_rb.Client.Config.Connections.{consumer_builder, emitter_builder}
use prosody_rb.Client.Config.Consumers.{
  Builds, consumer_builders, span_fields, loader_field, loader_fields, has_loader, peer_fields,
  build_peer_config, core_error, seek_timeout, registration_ttl,
}
use prosody_rb.Client.Config.State.{
  build_keyed_state_config, keyed_state_fields, cache_field, read_cache_policy, ReadCachePolicy,
}
use prosody_rb.Util.Seconds.{Floats, seconds}
use prosody_rb.Ruby.{Message}
use mathlib.Core.Bool.{true≢false}
use prosody_rb.Client.Config.Valid.{consumer_builder-IsOk, deduplication_builder-IsOk}

-- If four steps and what follows them succeed, each of the four does.
four-IsOk :
    {E A B C D R : Type 0} (a : Result E A) (b : Result E B) (c : Result E C) (d : Result E D)
    (k : A → B → C → D → Result E R)
    → IsOk (a >>= λ x. b >>= λ y. c >>= λ z. d >>= λ u. k x y z u)
    → IsOk a × IsOk b × IsOk c × IsOk d × ((x : A) × (y : B) × (z : C) × (u : D) × IsOk (k x y z u))
four-IsOk (ok x) (ok y) (ok z) (ok u) k h = (tt, tt, tt, tt, (x, y, z, u, h))
four-IsOk (err e) b c d k h = absurd h
four-IsOk (ok x) (err e) c d k h = absurd h
four-IsOk (ok x) (ok y) (err e) d k h = absurd h
four-IsOk (ok x) (ok y) (ok z) (err e) k h = absurd h

-- If a step and what follows it succeed, the step does, and so does what follows it on its result.
step-IsOk :
    {E A R : Type 0} (a : Result E A) (k : A → Result E R)
    → IsOk (a >>= k)
    → IsOk a × ((x : A) × IsOk (k x))
step-IsOk (ok x) k h = (tt, (x, h))
step-IsOk (err e) k h = absurd h

-- The time to live of a read cache, if there is one, is a duration.
abbrev pub IsCacheDuration : (fl : Floats) → Option (ReadCacheConfig fl.F64) → Type 0
IsCacheDuration fl (some (ReadCacheConfig.ttl v)) = IsDuration fl (some v)
IsCacheDuration fl (some (ReadCacheConfig.disabled b)) = Unit
IsCacheDuration fl none = Unit

module _ (p : Parsers) where
  cache_field-IsOk :
      (r : Result Message (ReadCachePolicy p.Duration)) → IsGood (cache_field p r) → IsOk r
  cache_field-IsOk (ok policy) h = tt
  cache_field-IsOk (err e) h = h

  read_cache_policy-IsCacheDuration :
      (option : String) (v : Option (ReadCacheConfig p.F64))
      → IsOk (read_cache_policy p option v)
      → IsCacheDuration p.floats v
  unfolding read_cache_policy seconds
  read_cache_policy-IsCacheDuration option none h = tt
  read_cache_policy-IsCacheDuration option (some (ReadCacheConfig.disabled b)) h = tt
  read_cache_policy-IsCacheDuration option (some (ReadCacheConfig.ttl v)) h =
      (timed-IsGood p.floats option (some v) ReadCachePolicy.ttl).0 h

  -- Where the loader's seek timeout is given, the loader is built.
  seek-IsDuration :
      (b : Builds p) (c : NativeConfiguration p.F64)
      → IsGood (loader_field p b c)
      → IsDuration p.floats c.loader_seek_timeout
  seek-IsDuration b c h = elim (Bool-cases (has_loader p b c)) [
    | inl has ↦
        let built = step-IsOk (apply_fields (loader_fields p b c)) _ (rw has at h) in
        (timed-IsGood p.floats "loader_seek_timeout" c.loader_seek_timeout seek_timeout).0
          (((apply_fields-IsOk (loader_fields p b c)).0 built.0).1.0)
    | inr has_not ↦ absent c.loader_seek_timeout refl has_not
  ]
    where
      absent :
          (v : Option p.F64)
          → c.loader_seek_timeout ≡ v
          → has_loader p b c ≡ false
          → IsDuration p.floats c.loader_seek_timeout
      absent none e unset = rw e tt
      absent (some v) e unset = absurd (true≢false (sym (rw e (ground arith)) ∙ unset))

module _ (p : Parsers) (b : Builds p) (c : NativeConfiguration p.F64) where
  -- If the consumer options all convert, then the times of the connection, retry, scheduler,
  -- monopolization, defer, timeout, deduplication, loader, peer and read cache settings are absent or
  -- durations that the standard library accepts, and the size of the deduplication cache is not a
  -- given zero.
  pub consumer_builders-IsDuration :
      IsOk (consumer_builders p b c)
      → IsDuration p.floats c.stall_threshold
        × IsDuration p.floats c.shutdown_timeout
        × IsDuration p.floats c.poll_interval
        × IsDuration p.floats c.commit_interval
        × IsDuration p.floats c.statistics_interval
        × IsDuration p.floats c.slab_size
        × IsDuration p.floats c.retry_base
        × IsDuration p.floats c.max_retry_delay
        × IsDuration p.floats c.scheduler_max_wait
        × IsDuration p.floats c.monopolization_window
        × IsDuration p.floats c.defer_base
        × IsDuration p.floats c.defer_max_delay
        × IsDuration p.floats c.defer_failure_window
        × IsDuration p.floats c.timeout
        × IsDuration p.floats c.idempotence_ttl
        × IsDuration p.floats c.loader_seek_timeout
        × IsDuration p.floats c.peer_registration_ttl
        × IsCacheDuration p.floats c.state_read_cache
        × (c.idempotence_cache_size ≢ some 0)
  unfolding consumer_builders retry_builder scheduler_builder monopolization_builder defer_builder
      timeout_builder build_keyed_state_config build_peer_config
  consumer_builders-IsDuration h =
      let (consumer, spans, retry, scheduler, (_, _, _, _, rest)) =
        four-IsOk (consumer_builder p c) (apply_fields (span_fields p b c)) (retry_builder p c)
          (scheduler_builder p c) _ h in
      let (monopolization, defer, timeout, dedup, (_, _, _, _, last)) =
        four-IsOk (monopolization_builder p c) (defer_builder p c) (timeout_builder p c)
          (deduplication_builder p c) _ rest in
      let (emitter_ok, (settings, rest1)) = step-IsOk (emitter_builder p c) _ last in
      let (built, (emitter, rest2)) = step-IsOk (core_error (b.build_emitter settings)) _ rest1 in
      let (keyed, (state, rest3)) =
        step-IsOk (build_keyed_state_config p b.build_keyed c) _ rest2 in
      let (peer, _) = step-IsOk (build_peer_config p b c) _ rest3 in
      let k =
        (apply_fields-IsOk (keyed_state_fields p c)).0
          (step-IsOk (apply_fields (keyed_state_fields p c)) _ keyed).0 in
      let pe =
        (apply_fields-IsOk (peer_fields p b c)).0
          (step-IsOk (apply_fields (peer_fields p b c)) _ peer).0 in
      let sp = (apply_fields-IsOk (span_fields p b c)).0 spans in
      let (stall, shutdown, poll, commit, statistics, slab) =
        (consumer_builder-IsOk p b.Loader c).0 consumer in
      let r = (apply_fields-IsOk (retry_fields p c)).0 retry in
      let sc = (apply_fields-IsOk (scheduler_fields p c)).0 scheduler in
      let m = (apply_fields-IsOk (monopolization_fields p c)).0 monopolization in
      let d = (apply_fields-IsOk (defer_fields p c)).0 defer in
      let t = (apply_fields-IsOk (timeout_fields p c)).0 timeout in
      let (size, ttl) = (deduplication_builder-IsOk p c).0 dedup in
      (
        stall,
        shutdown,
        poll,
        commit,
        statistics,
        slab,
        (timed-IsGood p.floats "retry_base" c.retry_base RetrySetting.base).0 (r.0),
        (timed-IsGood p.floats "max_retry_delay" c.max_retry_delay RetrySetting.max_delay).0
            (r.1.1.0),
        (timed-IsGood p.floats "scheduler_max_wait" c.scheduler_max_wait max_wait).0 (sc.1.1.0),
        (timed-IsGood p.floats "monopolization_window" c.monopolization_window window_duration).0
            (m.1.1.0),
        (timed-IsGood p.floats "defer_base" c.defer_base DeferSetting.base).0 (d.1.0),
        (timed-IsGood p.floats "defer_max_delay" c.defer_max_delay DeferSetting.max_delay).0
            (d.1.1.0),
        (timed-IsGood p.floats "defer_failure_window" c.defer_failure_window failure_window).0
            (d.1.1.1.1.0),
        (timed-IsGood p.floats "timeout" c.timeout TimeoutSetting.timeout).0 (t.0),
        ttl,
        seek-IsDuration p b c (sp.1.1.0),
        (timed-IsGood p.floats "peer_registration_ttl" c.peer_registration_ttl registration_ttl).0
            (pe.1.1.1.1.0),
        read_cache_policy-IsCacheDuration p "state_read_cache" c.state_read_cache
            (cache_field-IsOk p _ (k.1.1.1.1.0)),
        size,
      )
