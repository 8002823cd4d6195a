-- ===== src/Tests/SharedTests.antt =====
-- Two switches that read the same ConfigMap before either writes it (pkg/actuator/k8s.go).
use couchbase_health_observe.Prelude.{
  ℕ, true, false, ◌≡◌, ◌⊎◌, refl, [], ◌∷◌, Option, none, some, Str, bytes, str_eq, inl, inr,
  if◌then◌else◌, arith,
}
use couchbase_health_observe.Prelude.Dict.{lookup, insert, contains}
use couchbase_health_observe.Actuator.Types.{Ref, has_ref, ref_eq}
use couchbase_health_observe.Actuator.Kube.{ConfigMap, Deployment, ok, failed, get, put}
use couchbase_health_observe.Actuator.Kube.Memory.{Cluster, find, memory}
use couchbase_health_observe.Actuator.Switch.{
  switch, patch_config_maps, patch_one, roll_deployments, roll_one,
}
use couchbase_health_observe.Actuator.Trace.{
  Call, got_config_map, updated_config_map, got_deployment,
}
use couchbase_health_observe.Actuator.Shared.{
  Team, Shared, Made, Step, reads_config_map, writes_config_map, Reach, begun, stepped,
  shows_secondary, noting, Writes,
}
use couchbase_health_observe.Actuator.Shared.Safe.{Guards, shared-guarded}
use couchbase_health_observe.Tests.ActuatorTests.{conn_a, app_a, on_primary}

abbrev team : Team
team = record {
  config_key = bytes "k";
  secondary = bytes "S";
  writer = λ i. record {
    config_maps = conn_a ∷ [];
    deployments = app_a ∷ [];
    dry_run = false;
    stamp = bytes "now";
  };
}

abbrev maps : Ref → Option ConfigMap
maps r = if ref_eq conn_a r then some on_primary else none

abbrev apps : Ref → Option Deployment
apps r = none

abbrev start : Shared
start = record { config_map = maps; deployment = apps; calls = λ i. [] }

abbrev patched : ConfigMap
patched = record { content = some ((bytes "k", bytes "S") ∷ (bytes "x", bytes "1") ∷ []) }

abbrev patched_maps : Ref → Option ConfigMap
patched_maps r = if ref_eq conn_a r then some patched else none

abbrev held : Cluster
held = record {
  config_maps = (conn_a, on_primary) ∷ [];
  deployments = [];
  unreadable = app_a ∷ [];
  read_only = [];
}

abbrev refused : Cluster
refused = record held { read_only = conn_a ∷ [] }

abbrev reading : Call
reading = got_config_map conn_a (ok on_primary)

abbrev conflict : Option Str
conflict = some (bytes "conflict")

first_read : (i : ℕ) → Made team i (reading ∷ [])
unfolding switch patch_config_maps patch_one roll_deployments roll_one find has_ref ref_eq get put
    lookup insert contains str_eq
first_read i = (
  memory,
  held,
  got_deployment app_a (failed (bytes "forbidden")) ∷ updated_config_map conn_a patched none ∷ [],
  refl,
)

first_write : (i : ℕ) → Made team i (updated_config_map conn_a patched none ∷ reading ∷ [])
unfolding switch patch_config_maps patch_one roll_deployments roll_one find has_ref ref_eq get put
    lookup insert contains str_eq
first_write i = (memory, held, got_deployment app_a (failed (bytes "forbidden")) ∷ [], refl)

lost_write : (i : ℕ) → Made team i (updated_config_map conn_a patched conflict ∷ reading ∷ [])
unfolding switch patch_config_maps patch_one roll_deployments roll_one find has_ref ref_eq get put
    lookup insert contains str_eq
lost_write i = (memory, refused, [], refl)

-- The two reads, the write of the second switch, and the conflict of the first.
abbrev both_read : Shared
both_read = noting 1 reading (noting 0 reading start)

abbrev one_wrote : Shared
one_wrote = record (noting 1 (updated_config_map conn_a patched none) both_read) {
  config_map = patched_maps;
}

abbrev last : Shared
last = record (noting 0 (updated_config_map conn_a patched conflict) one_wrote) {
  config_map = patched_maps;
}

written : Writes conn_a patched none maps patched_maps
unfolding ref_eq str_eq
written = (inl refl, λ r apart. ground arith)

reached_last : Reach team maps apps last
unfolding ref_eq str_eq
reached_last =
    let step0 : Step team start (noting 0 reading start) =
      reads_config_map 0 conn_a (ok on_primary) (first_read 0) refl in
    let step1 : Step team (noting 0 reading start) both_read =
      reads_config_map 1 conn_a (ok on_primary) (first_read 1) refl in
    let step2 : Step team both_read one_wrote =
      writes_config_map 1 conn_a patched none patched_maps (first_write 1) written in
    let step3 : Step team one_wrote last =
      writes_config_map 0 conn_a patched conflict patched_maps (lost_write 0)
        (inr (refl, refl), λ r apart. refl) in
    stepped (stepped (stepped (stepped begun step0) step1) step2) step3

shared-guarded_example :
    ((c : Ref) → (patched_maps c ≡ maps c) ⊎ (shows_secondary team (patched_maps c) ≡ true))
    × ((d : Ref) → (apps d ≡ apps d) ⊎ ((i : ℕ) × Guards team i last d.namespace))
shared-guarded_example = shared-guarded team maps apps last reached_last
