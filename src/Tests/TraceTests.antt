-- ===== src/Tests/TraceTests.antt =====
-- The calls of a switch while another hand writes to the cluster (pkg/actuator/k8s.go).
use couchbase_health_observe.Prelude.{◌≡◌, refl, List, [], ◌∷◌, none, some, bytes, str_eq, false}
use couchbase_health_observe.Prelude.Dict.{lookup, insert, contains}
use couchbase_health_observe.Actuator.Types.{has_ref, ref_eq, ann_switched_to, ann_restarted_at}
use couchbase_health_observe.Actuator.Kube.{ConfigMap, Deployment, ok, get, put, Kube}
use couchbase_health_observe.Actuator.Kube.Memory.{find, memory}
use couchbase_health_observe.Actuator.Switch.{
  switch, patch_config_maps, patch_one, roll_deployments, roll_one,
}
use couchbase_health_observe.Actuator.Trace.{
  Call, got_config_map, updated_config_map, got_deployment, updated_deployment, traced, untold,
  IsProper,
}
use couchbase_health_observe.Actuator.Trace.Order.{switch-IsProper}
use couchbase_health_observe.Tests.ActuatorTests.{
  config, cluster, conn_a, conn_b, app_a, app_b, on_primary,
}

-- An API that keeps no law: each update of a ConfigMap is undone before the next call.
abbrev meddled : Kube
meddled = record memory { update_config_map = λ r cm w. (none, w) }

unfoldable calls : List Call
unfolding switch patch_config_maps patch_one roll_deployments roll_one find has_ref ref_eq get put
    lookup insert contains str_eq
calls = (switch (traced meddled) (config false) (bytes "now") (untold (cluster []))).1.calls

abbrev on_secondary : ConfigMap
on_secondary = record { content = some ((bytes "k", bytes "S") ∷ (bytes "x", bytes "1") ∷ []) }

switch-IsProper_example :
    let (result, t) = switch (traced meddled) (config false) (bytes "now") (untold (cluster [])) in
    (result ≡ (switch meddled (config false) (bytes "now") (cluster [])).0)
    × (t.world ≡ (switch meddled (config false) (bytes "now") (cluster [])).1)
    × IsProper (config false) (bytes "now") t.calls
switch-IsProper_example = switch-IsProper meddled (config false) (bytes "now") (cluster [])

abbrev fresh : Deployment
fresh = record { annotations = none }

abbrev rolled : Deployment
rolled = record {
  annotations = some ((ann_switched_to, bytes "S") ∷ (ann_restarted_at, bytes "now") ∷ []);
}

all_calls :
    calls
    ≡ updated_deployment app_b rolled none
      ∷ got_deployment app_b (ok fresh)
      ∷ updated_deployment app_a rolled none
      ∷ got_deployment app_a (ok fresh)
      ∷ updated_config_map conn_b on_secondary none
      ∷ got_config_map conn_b (ok on_primary)
      ∷ updated_config_map conn_a on_secondary none
      ∷ got_config_map conn_a (ok on_primary)
      ∷ []
unfolding calls
all_calls = refl
