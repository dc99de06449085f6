-- ===== src/Client/Config/Middleware.antt =====
-- ext/prosody/src/client/config/middleware.rs: the retry, failure topic, scheduler, monopolization,
-- defer, timeout and deduplication builders.
use prosody_rb.Base.{ℕ, zero, suc, String, Bool, none, some, List, [], ◌∷◌, Result, ok, err}
use prosody_rb.Ruby.{Message, lit}
use prosody_rb.Client.Config.Core.{Parsers}
use prosody_rb.Client.Config.Native.{NativeConfiguration}
use prosody_rb.Client.Config.Fields.{Field, plain, checked, timed, apply_fields}

pub data RetrySetting (Duration : Type 0) : Type 0 where
  base max_delay : Duration → RetrySetting Duration
  max_retries : ℕ → RetrySetting Duration

pub data FailureTopicSetting : Type 0 where
  failure_topic : String → FailureTopicSetting

pub data SchedulerSetting (F64 Duration : Type 0) : Type 0 where
  max_concurrency cache_size : ℕ → SchedulerSetting F64 Duration
  failure_weight wait_weight : F64 → SchedulerSetting F64 Duration
  max_wait : Duration → SchedulerSetting F64 Duration

pub data MonopolizationSetting (F64 Duration : Type 0) : Type 0 where
  enabled : Bool → MonopolizationSetting F64 Duration
  monopolization_threshold : F64 → MonopolizationSetting F64 Duration
  window_duration : Duration → MonopolizationSetting F64 Duration
  cache_size : ℕ → MonopolizationSetting F64 Duration

pub data DeferSetting (F64 Duration : Type 0) : Type 0 where
  enabled : Bool → DeferSetting F64 Duration
  base max_delay failure_window : Duration → DeferSetting F64 Duration
  failure_threshold : F64 → DeferSetting F64 Duration
  store_cache_size : ℕ → DeferSetting F64 Duration

pub data TimeoutSetting (Duration : Type 0) : Type 0 where
  timeout : Duration → TimeoutSetting Duration

pub data DeduplicationSetting (Duration : Type 0) : Type 0 where
  cache_capacity : ℕ → DeduplicationSetting Duration
  version : String → DeduplicationSetting Duration
  ttl : Duration → DeduplicationSetting Duration

abbrev pub zero_capacity : Message
zero_capacity = lit "idempotence_cache_size must be greater than 0" ∷ []

-- `NonZeroUsize::new(…).ok_or_else(…)`
abbrev pub positive_capacity :
    {Duration : Type 0} → ℕ → Result Message (DeduplicationSetting Duration)
positive_capacity zero = err zero_capacity
positive_capacity (suc n) = ok (cache_capacity (suc n))

module _ (p : Parsers) where
  open p use {F64, Duration, floats}

  abbrev pub retry_fields : NativeConfiguration F64 → List (Field (RetrySetting Duration))
  retry_fields c =
      timed floats "retry_base" c.retry_base RetrySetting.base
      ∷ plain c.max_retries max_retries
      ∷ timed floats "max_retry_delay" c.max_retry_delay RetrySetting.max_delay
      ∷ []

  unfoldable pub retry_builder :
      NativeConfiguration F64 → Result Message (List (RetrySetting Duration))
  retry_builder c = apply_fields (retry_fields c)

  -- `From`, which cannot fail.
  unfoldable pub failure_topic_builder : NativeConfiguration F64 → List FailureTopicSetting
  failure_topic_builder c = elim c.failure_topic [ none ↦ [] | some t ↦ failure_topic t ∷ [] ]

  abbrev pub scheduler_fields :
      NativeConfiguration F64 → List (Field (SchedulerSetting F64 Duration))
  scheduler_fields c =
      plain c.max_concurrency max_concurrency
      ∷ plain c.scheduler_failure_weight failure_weight
      ∷ timed floats "scheduler_max_wait" c.scheduler_max_wait max_wait
      ∷ plain c.scheduler_wait_weight wait_weight
      ∷ plain c.scheduler_cache_size SchedulerSetting.cache_size
      ∷ []

  unfoldable pub scheduler_builder :
      NativeConfiguration F64 → Result Message (List (SchedulerSetting F64 Duration))
  scheduler_builder c = apply_fields (scheduler_fields c)

  abbrev pub monopolization_fields :
      NativeConfiguration F64 → List (Field (MonopolizationSetting F64 Duration))
  monopolization_fields c =
      plain c.monopolization_enabled MonopolizationSetting.enabled
      ∷ plain c.monopolization_threshold monopolization_threshold
      ∷ timed floats "monopolization_window" c.monopolization_window window_duration
      ∷ plain c.monopolization_cache_size MonopolizationSetting.cache_size
      ∷ []

  unfoldable pub monopolization_builder :
      NativeConfiguration F64 → Result Message (List (MonopolizationSetting F64 Duration))
  monopolization_builder c = apply_fields (monopolization_fields c)

  abbrev pub defer_fields : NativeConfiguration F64 → List (Field (DeferSetting F64 Duration))
  defer_fields c =
      plain c.defer_enabled DeferSetting.enabled
      ∷ timed floats "defer_base" c.defer_base DeferSetting.base
      ∷ timed floats "defer_max_delay" c.defer_max_delay DeferSetting.max_delay
      ∷ plain c.defer_failure_threshold failure_threshold
      ∷ timed floats "defer_failure_window" c.defer_failure_window failure_window
      ∷ plain c.defer_store_cache_size store_cache_size
      ∷ []

  unfoldable pub defer_builder :
      NativeConfiguration F64 → Result Message (List (DeferSetting F64 Duration))
  defer_builder c = apply_fields (defer_fields c)

  abbrev pub timeout_fields : NativeConfiguration F64 → List (Field (TimeoutSetting Duration))
  timeout_fields c = timed floats "timeout" c.timeout timeout ∷ []

  unfoldable pub timeout_builder :
      NativeConfiguration F64 → Result Message (List (TimeoutSetting Duration))
  timeout_builder c = apply_fields (timeout_fields c)

  abbrev pub deduplication_fields :
      NativeConfiguration F64 → List (Field (DeduplicationSetting Duration))
  deduplication_fields c =
      checked c.idempotence_cache_size positive_capacity
      ∷ plain c.idempotence_version version
      ∷ timed floats "idempotence_ttl" c.idempotence_ttl ttl
      ∷ []

  unfoldable pub deduplication_builder :
      NativeConfiguration F64 → Result Message (List (DeduplicationSetting Duration))
  deduplication_builder c = apply_fields (deduplication_fields c)
