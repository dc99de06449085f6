-- ===== src/Client/Config/Tests.antt =====
-- Concrete configurations.
use prosody_rb.Base.{◌↔◌, pos, negsuc, true, none, some, List, [], ◌∷◌, IsOk}
use prosody_rb.Util.Samples.{whole_seconds}
use prosody_rb.Client.Config.Native.{
  NativeConfiguration, StateCollectionConfig, default_configuration,
}
use prosody_rb.Client.Config.State.Descriptors.{
  Descriptor, DescriptorCall, map_json, set_keys, state_collection,
}
use prosody_rb.Client.Config.Collections.{IsCollection, state_collection-IsOk}

abbrev configuration : NativeConfiguration (whole_seconds.F64)
configuration = record (default_configuration {F64 = whole_seconds.F64}) {
  send_timeout = some (negsuc 0);
  stall_threshold = some (pos 30);
  idempotence_cache_size = some 0;
}

abbrev counts : StateCollectionConfig
counts = record {
  name = "counts";
  kind = "map";
  payload = some "json";
  ttl_seconds = some 60;
  read_uncommitted = none;
  published = some true;
  keyset_limit = some 100;
  capacity = none;
}

abbrev seen : StateCollectionConfig
seen = record counts { name = "seen"; kind = "set"; payload = none; keyset_limit = none }

state_collection-IsOk_example : IsOk (state_collection 0 seen) ↔ IsCollection seen
state_collection-IsOk_example = state_collection-IsOk 0 seen

abbrev registered : List Descriptor
registered =
    record {
      shape = map_json;
      name = "counts";
      calls =
          DescriptorCall.ttl_call 60
          ∷ DescriptorCall.published true
          ∷ DescriptorCall.keyset_limit 100
          ∷ [];
    }
    ∷ record {
      shape = set_keys;
      name = "seen";
      calls = DescriptorCall.ttl_call 60 ∷ DescriptorCall.published true ∷ [];
    }
    ∷ []
