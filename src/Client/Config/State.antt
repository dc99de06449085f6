-- ===== src/Client/Config/State.antt =====
-- ext/prosody/src/client/config/state.rs: the keyed-state options. The configuration is what the core
-- built with the descriptors registered on it, in order.
pub mod Descriptors
use prosody_rb.Base.{
  String, true, false, Option, none, some, List, [], ◌∷◌, Result, ok, err, ◌>>=◌, map_err,
}
use prosody_rb.Ruby.{Message, lit}
use prosody_rb.Util.Seconds.{seconds}
use prosody_rb.Client.Config.Core.{Parsers}
use prosody_rb.Client.Config.Native.{NativeConfiguration, StateCollectionConfig, ReadCacheConfig}
use prosody_rb.Client.Config.Fields.{Field, plain, checked, under, apply_fields}
use prosody_rb.Client.Config.State.Descriptors.{Descriptor, register_from}

-- `ReadCachePolicy` of the core.
pub data ReadCachePolicy (Duration : Type 0) : Type 0 where
  inherit disabled : ReadCachePolicy Duration
  ttl : Duration → ReadCachePolicy Duration

pub data KeyedStateSetting (Duration ByteSize SubsystemName : Type 0) : Type 0 where
  cache_dir : String → KeyedStateSetting Duration ByteSize SubsystemName
  owned_cache_size memtable_size read_cache_size :
      ByteSize → KeyedStateSetting Duration ByteSize SubsystemName
  read_cache_ttl : Option Duration → KeyedStateSetting Duration ByteSize SubsystemName
  subsystem : SubsystemName → KeyedStateSetting Duration ByteSize SubsystemName

pub record KeyedState (Built : Type 0) : Type 0 where
  pub core : Built
  pub registered : List Descriptor

abbrev pub ambiguous_cache : String → Message
ambiguous_cache option = lit option ∷ lit ": true is ambiguous; use a duration or false" ∷ []

module _ (p : Parsers) where
  open p use {F64, Duration, floats, ByteSize, SubsystemName, parse_size, try_subsystem}

  unfoldable pub read_cache_policy :
      String → Option (ReadCacheConfig F64) → Result Message (ReadCachePolicy Duration)
  read_cache_policy option none = ok inherit
  read_cache_policy option (some (ReadCacheConfig.disabled false)) = ok ReadCachePolicy.disabled
  read_cache_policy option (some (ReadCacheConfig.disabled true)) = err (ambiguous_cache option)
  read_cache_policy option (some (ReadCacheConfig.ttl v)) =
      seconds floats option v >>= λ d. ok (ReadCachePolicy.ttl d)

  -- The `match` on the policy: an inherited policy sets nothing.
  abbrev pub cache_setting :
      ReadCachePolicy Duration → Option (KeyedStateSetting Duration ByteSize SubsystemName)
  cache_setting inherit = none
  cache_setting ReadCachePolicy.disabled = some (read_cache_ttl none)
  cache_setting (ReadCachePolicy.ttl d) = some (read_cache_ttl (some d))

  abbrev pub cache_field :
      Result Message (ReadCachePolicy Duration)
      → Field (KeyedStateSetting Duration ByteSize SubsystemName)
  cache_field (err e) = some (err e)
  cache_field (ok policy) = elim (cache_setting policy) [ none ↦ none | some s ↦ some (ok s) ]

  abbrev size_field :
      String
      → Option String
      → (ByteSize → KeyedStateSetting Duration ByteSize SubsystemName)
      → Field (KeyedStateSetting Duration ByteSize SubsystemName)
  size_field option v f = checked v (λ s. under option (parse_size s) >>= λ size. ok (f size))

  abbrev pub keyed_state_fields :
      NativeConfiguration F64 → List (Field (KeyedStateSetting Duration ByteSize SubsystemName))
  keyed_state_fields c =
      plain c.state_cache_dir cache_dir
      ∷ size_field "state_owned_cache_size" c.state_owned_cache_size owned_cache_size
      ∷ size_field "state_memtable_size" c.state_memtable_size memtable_size
      ∷ size_field "state_read_cache_size" c.state_read_cache_size read_cache_size
      ∷ cache_field (read_cache_policy "state_read_cache" c.state_read_cache)
      ∷ checked c.subsystem
          (λ s. map_err (λ e. lit e ∷ []) (try_subsystem s) >>= λ name. ok (subsystem name))
      ∷ []

  abbrev given : Option (List StateCollectionConfig) → List StateCollectionConfig
  given none = []
  given (some collections) = collections

  -- `build_keyed_state_config`, where `build` is the core's own.
  unfoldable pub build_keyed_state_config :
      {Built : Type 0}
      → (List (KeyedStateSetting Duration ByteSize SubsystemName) → Result String Built)
      → NativeConfiguration F64
      → Result Message (KeyedState Built)
  unfolding register_from
  build_keyed_state_config build c = do
    settings ← apply_fields (keyed_state_fields c)
    core ← map_err (λ e. lit e ∷ []) (build settings)
    registered ← register_from 0 (given c.state_collections) []
    ok (record { core = core; registered = registered })
