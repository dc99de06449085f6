-- ===== src/Admin/Tests.antt =====
-- A topic whose retention is negative.
use prosody_rb.Base.{ℕ, ◌≡◌, refl, true, negsuc, some, none, List, [], ◌∷◌, ok, err}
use prosody_rb.Ruby.{new, argument_error, lit}
use prosody_rb.Ruby.Vm.Sample.{sample}
use prosody_rb.Ruby.Vm.{Vm}
use prosody_rb.Util.ForkGuard.{ForkGuard}
use prosody_rb.Util.Samples.{whole_seconds}
use prosody_rb.Util.Seconds.{seconds}
use prosody_rb.Admin.{
  TopicArguments, TopicSetting, Administration, create_topic, topic_settings, retention_setting,
  delete_topic,
}
use prosody_rb.Client.Calls.{check_fork}
use prosody_rb.Util.ForkGuard.{check, after_fork}

abbrev vm : Vm ℕ
vm = sample (λ w. w)

abbrev arguments : TopicArguments (whole_seconds.F64)
arguments = record {
  name = "orders";
  partition_count = 4;
  replication_factor = 1;
  cleanup_policy = some none;
  retention = some (some (negsuc 1));
}

abbrev admin : Administration ℕ
admin = record {
  floats = whole_seconds;
  Topic = List (TopicSetting (whole_seconds.Duration));
  AdminClient = ℕ;
  parse_arguments = λ args. ok arguments;
  build = λ settings. ok settings;
  wait_create_topic = λ topic. λ w. (ok (ok tt), w);
  wait_delete_topic = λ name. λ w. (ok (ok tt), w);
  ensure_runtime = λ w. w;
  configure = λ servers. ok tt;
  new_admin = λ servers. λ w. (ok (ok 1), w);
  has_bridge = λ w. true;
}

abbrev fork : ForkGuard
fork = record { pid = 1; class = "Prosody::AdminClient" }

refused_retention : create_topic vm admin fork [] 1 ≡ (
  err (
      new argument_error
        (lit "retention" ∷ lit ": must be a finite, non-negative number of seconds" ∷ [])),
  1,
)
unfolding create_topic topic_settings retention_setting check_fork check seconds
refused_retention = refl

refused_deletion :
    delete_topic vm admin fork "orders" 2 ≡ (err (after_fork "Prosody::AdminClient"), 2)
unfolding delete_topic check_fork check
refused_deletion = refl
