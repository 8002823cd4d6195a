-- ===== src/Tests/LambdaTests.antt =====
-- An alarm that is delivered twice to the cluster of the actuator's tests (pkg/switchhandler).
use couchbase_health_observe.Prelude.{true, ◌≡◌, ◌≢◌, refl, List, [], ◌∷◌, none, some, Str, bytes}
use couchbase_health_observe.Actuator.Types.{Ref, has_ref}
use couchbase_health_observe.Actuator.Kube.{SameServer}
use couchbase_health_observe.Actuator.Kube.Memory.{memory, memory-IsLawful}
use couchbase_health_observe.Actuator.Switch.Reads.{on_secondary, stamped}
use couchbase_health_observe.Lambda.{Json}
use couchbase_health_observe.Lambda.Delivery.{deliver}
use couchbase_health_observe.Prelude.Strings.{split, has_byte}
use couchbase_health_observe.Prelude.Strings.Space.{trim_space}
use couchbase_health_observe.Actuator.Refs.{parse_refs_required}
use couchbase_health_observe.Prelude.Dict.{Dict, lookup}
use couchbase_health_observe.Prelude.Boot.{Checked, stopped}
use couchbase_health_observe.Lambda.Eksauth.{Aws}
use couchbase_health_observe.Lambda.Entry.{Env, Clients, EntryError, EntryLine, Served, entry}
use couchbase_health_observe.Lambda.Entry.Delivered.{asked_config, entry-delivered}
use couchbase_health_observe.Actuator.Kube.Memory.{Cluster}
use couchbase_health_observe.Tests.ActuatorTests.{cluster, all_well}

-- A decoder that takes the text for the state of the alarm.
abbrev decoder : Json
decoder = record {
  envelope = λ raw. (raw ∷ [], none);
  alarm = λ message. (record { alarm_name = bytes "quorum"; new_state_value = message }, none);
}

-- An environment, as a table of what is set.
abbrev env : Env
env k = elim (lookup k table) [ none ↦ [] | some v ↦ v ]
  where
    table : Dict Str
    table =
        (bytes "NAMESPACE", bytes "a")
        ∷ (bytes "CONFIGMAP", bytes "c,b/c")
        ∷ (bytes "DEPLOYMENTS", bytes "d,b/d")
        ∷ (bytes "CONFIG_KEY", bytes "k")
        ∷ (bytes "SECONDARY_CONN", bytes "S")
        ∷ (bytes "ONESHOT_EVENT", bytes "ALARM")
        ∷ []

abbrev no_aws : Aws
no_aws = record {
  default_config = stopped (bytes "none");
  describe_cluster = λ cfg name. stopped (bytes "none");
  decode = λ text. stopped (bytes "none");
  generator = stopped (bytes "none");
  token_of = λ gen name. stopped (bytes "none");
  new_for_config = λ rest. none;
}

abbrev clients : Clients
clients = record {
  aws = no_aws;
  client_go = record { config_error = λ access. none; client_error = λ access. none };
}

unfoldable one_shot_end : Checked EntryError Served × (List EntryLine × Cluster)
unfolding entry all_well parse_refs_required split trim_space has_byte lookup
one_shot_end = entry memory decoder env clients (bytes "now") ([], cluster [])

entry-delivered_example :
    ((asked_config env).config_maps ≢ [])
    × ((r : Ref)
        → has_ref (asked_config env).config_maps r ≡ true
        → on_secondary memory (asked_config env) one_shot_end.1.1 r ≡ true)
    × ((r : Ref)
        → has_ref (asked_config env).deployments r ≡ true
        → stamped memory (asked_config env) one_shot_end.1.1 r ≡ true)
    × SameServer memory
        (deliver memory memory-IsLawful
          (asked_config env)
          decoder
          (bytes "ALARM")
          (bytes "then")
          one_shot_end.1.1).1
        one_shot_end.1.1
unfolding one_shot_end
entry-delivered_example =
    entry-delivered memory memory-IsLawful decoder env clients ([], cluster []) (bytes "now")
      (bytes "then") refl refl refl
