-- ===== src/Tests/JournalTests.antt =====
-- The log of a switch of the cluster of two namespaces, one of which cannot be read (pkg/actuator).
use couchbase_health_observe.Prelude.{
  Bool, some, true, false, ◌≡◌, refl, List, [], ◌∷◌, All, ◌⊎◌, bytes, str_eq, is_some, ◌||◌,
}
use couchbase_health_observe.Prelude.Dict.{lookup, insert, contains}
use couchbase_health_observe.Actuator.Types.{has_ref, ref_eq, Error}
use couchbase_health_observe.Actuator.Kube.{get, put}
use couchbase_health_observe.Actuator.Kube.Memory.{Cluster, find, memory, memory-IsLawful}
use couchbase_health_observe.Actuator.Switch.{
  switch, patch_config_maps, patch_one, roll_deployments, roll_one,
}
use couchbase_health_observe.Actuator.Journal.{
  ActuatorLine, configmap_patch, deployment_roll, roll_skipped, roll_only, switch_lines,
  patch_lines, patch_one_lines, roll_lines, roll_one_lines,
}
use couchbase_health_observe.Actuator.Journal.Reads.{
  logged_from, logged_roll, patch_refused, roll_refused,
}
use couchbase_health_observe.Actuator.Journal.Audit.{switch-audited}
use couchbase_health_observe.Actuator.Journal.Sound.{IsTrue, switch_lines_sound}
use couchbase_health_observe.Tests.ActuatorTests.{
  config, cluster, on_primary, conn_a, conn_b, app_a, app_b, all_well,
}

unfoldable lines : List ActuatorLine
unfolding switch_lines patch_lines patch_one_lines roll_lines roll_one_lines patch_config_maps
    patch_one roll_deployments roll_one find has_ref ref_eq get put lookup insert contains str_eq
lines = switch_lines memory (config false) (bytes "now") (cluster (conn_b ∷ []))

logged :
    lines
    ≡ configmap_patch conn_a (bytes "k") (bytes "P") (bytes "S")
      ∷ deployment_roll app_a
      ∷ roll_skipped app_b
      ∷ []
unfolding lines
logged = refl

unfoldable result : (Bool × List Error) × Cluster
unfolding switch patch_config_maps patch_one roll_deployments roll_one find has_ref ref_eq get put
    lookup insert contains str_eq
result = switch memory (config false) (bytes "now") (cluster (conn_b ∷ []))

switch-audited_example :
    ((find conn_b result.1.config_maps ≡ find conn_b (cluster (conn_b ∷ [])).config_maps)
      ⊎ ((is_some (logged_from lines conn_b) || patch_refused result.0.1 conn_b) ≡ true))
    × ((find app_a result.1.deployments ≡ find app_a (cluster (conn_b ∷ [])).deployments)
        ⊎ ((logged_roll lines app_a || roll_refused result.0.1 app_a) ≡ true))
unfolding lines result
switch-audited_example =
    switch-audited memory memory-IsLawful (config false) (bytes "now") (cluster (conn_b ∷ []))
      conn_b app_a

switch_lines_sound_example :
    All (IsTrue memory (config false) (cluster (conn_b ∷ [])) result.1 result.0.1 lines) (
      configmap_patch conn_a (bytes "k") (bytes "P") (bytes "S")
      ∷ deployment_roll app_a
      ∷ roll_skipped app_b
      ∷ [])
unfolding lines result
switch_lines_sound_example =
    switch_lines_sound memory memory-IsLawful (config false) (bytes "now") (cluster (conn_b ∷ []))

-- After the ConfigMaps were repointed by another hand, a switch only rolls.
rolls_only :
    switch_lines memory
      (config false)
      (bytes "then")
      (record all_well.1 { deployments = (cluster []).deployments })
    ≡ deployment_roll app_a ∷ deployment_roll app_b ∷ roll_only 2 (bytes "S") ∷ []
unfolding all_well switch_lines patch_lines patch_one_lines roll_lines roll_one_lines
    patch_config_maps patch_one roll_deployments roll_one find has_ref ref_eq get put lookup insert
    contains str_eq
rolls_only = refl

-- One ConfigMap was repointed by another hand, the other is on the primary and cannot be read: the
-- switch is told as one that only rolls.
rolls_only_blindly :
    (switch_lines memory
      (record (config false) { deployments = app_a ∷ [] })
      (bytes "then")
      (record (cluster (conn_b ∷ [])) {
        config_maps =
            (conn_a, record { content = some ((bytes "k", bytes "S") ∷ []) })
            ∷ (conn_b, on_primary)
            ∷ [];
      }))
    ≡ deployment_roll app_a ∷ roll_only 1 (bytes "S") ∷ []
unfolding all_well switch_lines patch_lines patch_one_lines roll_lines roll_one_lines
    patch_config_maps patch_one roll_deployments roll_one find has_ref ref_eq get put lookup insert
    contains str_eq
rolls_only_blindly = refl
