-- ===== src/Admin.antt =====
-- ext/prosody/src/admin.rs: the creation and deletion of topics. Ruby's argument parser
-- (`scan_args` and `get_kwargs` of the crate `magnus`), the core's builder of a topic and its admin
-- client are parameters.
mod Tests
use prosody_rb.Base.{
  ℕ, String, Option, none, some, List, [], ◌∷◌, ◌++◌, Result, ok, err, if◌then◌else◌, Bool,
}
use prosody_rb.Ruby.{Value, Error, Message, new, argument_error, runtime_error, lit}
use prosody_rb.Ruby.Effects.{M, ◌>>=◌, ◌>>◌, and_then, pure, lift}
use prosody_rb.Ruby.Vm.{Vm}
use prosody_rb.Util.ForkGuard.{ForkGuard, create}
use prosody_rb.Util.Seconds.{Floats, seconds}
use prosody_rb.Client.Calls.{check_fork, core_error}

-- The calls that are made on the core's `TopicConfiguration` builder, in order.
pub data TopicSetting (Duration : Type 0) : Type 0 where
  name : String → TopicSetting Duration
  partition_count replication_factor : ℕ → TopicSetting Duration
  cleanup_policy : String → TopicSetting Duration
  retention : Duration → TopicSetting Duration

-- The arguments of `create_topic`, as Ruby's parser gives them. A keyword may be absent or `nil`.
pub record TopicArguments (F64 : Type 0) : Type 0 where
  pub name : String
  pub partition_count : ℕ
  pub replication_factor : ℕ
  pub cleanup_policy : Option (Option String)
  pub retention : Option (Option F64)

-- The admin client of the core behind the bridge. The errors of the core are their texts.
pub record Administration (W : Type 0) : Type 1 where
  pub floats : Floats
  pub Topic : Type 0
  pub AdminClient : Type 0
  pub parse_arguments : List Value → Result Error (TopicArguments floats.F64)
  pub build : List (TopicSetting floats.Duration) → Result String Topic
  pub wait_create_topic : Topic → M W (Result String (Unit {0}))
  pub wait_delete_topic : String → M W (Result String (Unit {0}))
  -- What `new` needs: the set-up of the runtime, the core's constructors, and whether there is a
  -- bridge.
  pub ensure_runtime : W → W
  pub configure : List String → Result String (Unit {0})
  pub new_admin : List String → M W (Result String AdminClient)
  pub has_bridge : W → Bool

module _ {A : Type 0} where
  -- `Option::flatten`
  abbrev pub flatten : Option (Option A) → Option A
  flatten none = none
  flatten (some o) = o

  abbrev pub core_result : Result String A → Result Error A
  core_result (ok a) = ok a
  core_result (err error) = err (core_error error)

module _ {W : Type 0} (vm : Vm W) (a : Administration W) where
  open a use {
    floats, Topic, AdminClient, parse_arguments, build, wait_create_topic, wait_delete_topic,
    ensure_runtime, configure, new_admin, has_bridge,
  }
  open floats use {F64, Duration}

  abbrev pub policy_setting : Option String → List (TopicSetting Duration)
  policy_setting none = []
  policy_setting (some policy) = TopicSetting.cleanup_policy policy ∷ []

  abbrev pub argument : {A : Type 0} → Result Message A → Result Error A
  argument (ok value) = ok value
  argument (err message) = err (new argument_error message)

  -- A retention is set only if it is given.
  unfoldable pub retention_setting : Option F64 → M W (List (TopicSetting Duration))
  unfolding seconds
  retention_setting none = pure []
  retention_setting (some value) = do
    d ← lift (argument (seconds floats "retention" value))
    pure (TopicSetting.retention d ∷ [])

  unfoldable pub topic_settings : TopicArguments F64 → M W (List (TopicSetting Duration))
  unfolding retention_setting
  topic_settings t = do
    kept ← retention_setting (flatten t.retention)
    pure (
        TopicSetting.name t.name
        ∷ TopicSetting.partition_count t.partition_count
        ∷ TopicSetting.replication_factor t.replication_factor
        ∷ (policy_setting (flatten t.cleanup_policy) ++ kept))

  module _ (fork : ForkGuard) where
    unfoldable pub create_topic : List Value → M W (Unit {0})
    unfolding check_fork topic_settings
    create_topic args = check_fork vm fork >> (do
      t ← lift (parse_arguments args)
      made ← topic_settings t
      topic ← lift (core_result (build made))
      reply ← wait_create_topic topic
      lift (core_result reply))

    unfoldable pub delete_topic : String → M W (Unit {0})
    unfolding check_fork
    delete_topic name' =
        check_fork vm fork >> (do reply ← wait_delete_topic name'; lift (core_result reply))

  abbrev pub entered : M W (Unit {0})
  entered w = (ok tt, ensure_runtime w)

  abbrev pub bridge : M W (Unit {0})
  bridge w = (
    if has_bridge w then ok tt else err (new runtime_error (lit "Bridge not initialized" ∷ [])),
    w,
  )

  -- `AdminClient::new`: the core's client, with the guard of this process.
  unfoldable pub new_admin_client : List String → M W (AdminClient × ForkGuard)
  unfolding create
  new_admin_client bootstrap_servers = do
    entered
    lift (core_result (configure bootstrap_servers))
    reply ← new_admin bootstrap_servers
    client ← lift (core_result reply)
    bridge
    λ w. (ok (client, create (vm.process_id w) "Prosody::AdminClient"), w)
