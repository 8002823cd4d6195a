-- ===== src/Tests/CrashTests.antt =====
-- Switches of the cluster of two namespaces that stop on the way (pkg/actuator).
use couchbase_health_observe.Prelude.{
  ◌≤◌, Bool, true, false, ◌≡◌, ◌≢◌, refl, List, [], ◌∷◌, some, bytes, str_eq, ◌⊎◌,
}
use couchbase_health_observe.Prelude.Dict.{lookup, insert, contains}
use couchbase_health_observe.Actuator.Types.{Ref, has_ref, ref_eq, ann_switched_to, Error}
use couchbase_health_observe.Actuator.Kube.{Deployment, get, put}
use couchbase_health_observe.Actuator.Kube.Memory.{Cluster, find, memory, memory-IsLawful}
use couchbase_health_observe.Actuator.Switch.{
  switch, patch_config_maps, patch_one, roll_deployments, roll_one,
}
use couchbase_health_observe.Actuator.Switch.Reads.{stamped}
use couchbase_health_observe.Actuator.Crash.{mortal, with_calls, call_at}
use couchbase_health_observe.Actuator.Crash.Retry.{Held, crash-once, crash-recovers}
use couchbase_health_observe.Actuator.Crash.Calls.{switch-calls}
use couchbase_health_observe.Observer.Reconcile.{reconcile_already_switched}
use couchbase_health_observe.Tests.ActuatorTests.{config, cluster, app_a, app_b, all_well}

-- Both ConfigMaps are patched, app_a is rolled, and the next call is not made.
unfoldable halfway : Cluster
unfolding switch patch_config_maps patch_one roll_deployments roll_one find has_ref ref_eq get put
    lookup insert contains str_eq call_at
halfway = (switch (mortal memory) (config false) (bytes "now") (with_calls 6 (cluster []))).1.world

unfoldable retried : (Bool × List Error) × Cluster
unfolding switch patch_config_maps patch_one roll_deployments roll_one find has_ref ref_eq get put
    lookup insert contains str_eq halfway
retried = switch memory (config false) (bytes "then") halfway

crash-once_example :
    (find app_a halfway.deployments ≡ find app_a (cluster []).deployments)
    ⊎ (Held memory (config false) halfway (bytes "a")
        × (find app_a retried.1.deployments ≡ find app_a halfway.deployments))
unfolding halfway retried
crash-once_example =
    crash-once memory memory-IsLawful (config false) (bytes "now") (bytes "then") 6 (cluster [])
      app_a

crash-recovers_example :
    (find app_b retried.1.deployments ≢ find app_b (cluster []).deployments)
    × (stamped memory (config false) retried.1 app_b ≡ true)
    × Held memory (config false) retried.1 (bytes "b")
    × ((find app_b halfway.deployments ≡ find app_b (cluster []).deployments)
        ⊎ (find app_b retried.1.deployments ≡ find app_b halfway.deployments))
unfolding halfway retried
crash-recovers_example =
    crash-recovers memory memory-IsLawful (config false) (bytes "now") (bytes "then") 6 (cluster [])
      app_b refl refl refl refl

switch-calls_example :
    let (result, m) =
      switch (mortal memory) (config false) (bytes "now") (with_calls 11 (cluster [])) in
    (result ≡ all_well.0) × (m.world ≡ all_well.1) × (3 ≤ m.left)
unfolding all_well
switch-calls_example = switch-calls memory (config false) (bytes "now") 3 (cluster [])

-- The applications carry the stamp of an earlier switch, and their ConfigMaps were set back by
-- hand; the API forbids the writes of app_a.
abbrev stale : Deployment
stale = record { annotations = some ((ann_switched_to, bytes "S") ∷ []) }

abbrev set_back : List Ref → Cluster
set_back read_only = record (cluster []) {
  deployments = (app_a, stale) ∷ (app_b, stale) ∷ [];
  read_only = read_only;
}

unfoldable lost : (Bool × List Error) × Cluster
unfolding switch patch_config_maps patch_one roll_deployments roll_one find has_ref ref_eq get put
    lookup insert contains str_eq
lost = switch memory (config false) (bytes "now") (set_back (app_a ∷ []))

-- The API forbids it no more. The retry has no error to tell, and app_a was not restarted.
restart_lost :
    let again = switch memory (config false) (bytes "then") (record lost.1 { read_only = [] }) in
    (again.0 ≡ (false, []))
    × (find app_a again.1.deployments ≡ find app_a (set_back []).deployments)
unfolding lost
restart_lost = (refl, refl)

-- The process stops once the ConfigMaps are patched. The next one finds them on the secondary and
-- takes the switch for made; no application was restarted.
unfoldable stranded : Cluster
unfolding switch patch_config_maps patch_one roll_deployments roll_one find has_ref ref_eq get put
    lookup insert contains str_eq call_at
stranded = (switch (mortal memory) (config false) (bytes "now") (with_calls 4 (cluster []))).1.world

adopted_too_soon :
    ((reconcile_already_switched memory (config false) stranded).0 ≡ (true, []))
    × (stranded.deployments ≡ (cluster []).deployments)
unfolding stranded reconcile_already_switched
adopted_too_soon = (refl, refl)
