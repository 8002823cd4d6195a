-- ===== src/Tests/ActuatorTests.antt =====
-- A cluster of two namespaces (pkg/actuator): one ConfigMap cannot be read, or all goes well.
use couchbase_health_observe.Prelude.{
  Bool, true, false, ◌≡◌, refl, List, [], ◌∷◌, none, some, Str, bytes, join, map, str_eq,
}
use couchbase_health_observe.Prelude.Dict.{lookup, insert, contains}
use couchbase_health_observe.Prelude.Strings.{split, has_byte, cut_byte}
use couchbase_health_observe.Prelude.Strings.Space.{trim_space}
use couchbase_health_observe.Actuator.Types.{Ref, Config, Error, string, has_ref, ref_eq}
use couchbase_health_observe.Actuator.Kube.{ConfigMap, get, put, SameServer}
use couchbase_health_observe.Actuator.Kube.Memory.{Cluster, find, memory, memory-IsLawful}
use couchbase_health_observe.Actuator.Switch.{
  switch, patch_config_maps, patch_one, roll_deployments, roll_one,
}
use couchbase_health_observe.Actuator.Switch.Reads.{on_secondary, stamped}
use couchbase_health_observe.Actuator.Switch.Frame.{value_in}
use couchbase_health_observe.Actuator.Switch.Outcome.{
  switch-converges, switch-spares, switch-frame, switch-twice,
}
use couchbase_health_observe.Actuator.Refs.{parse_refs}
use couchbase_health_observe.Actuator.Refs.Parsing.{parse_refs-join, AreWritable}

abbrev ref_of : Str → Str → Ref
ref_of ns name = record { namespace = ns; name = name }

abbrev pub conn_a : Ref
conn_a = ref_of (bytes "a") (bytes "c")

abbrev pub conn_b : Ref
conn_b = ref_of (bytes "b") (bytes "c")

abbrev pub app_a : Ref
app_a = ref_of (bytes "a") (bytes "d")

abbrev pub app_b : Ref
app_b = ref_of (bytes "b") (bytes "d")

abbrev pub config : Bool → Config
config dry = record {
  config_maps = conn_a ∷ conn_b ∷ [];
  config_key = bytes "k";
  deployments = app_a ∷ app_b ∷ [];
  secondary = bytes "S";
  dry_run = dry;
}

abbrev pub on_primary : ConfigMap
on_primary = record { content = some ((bytes "k", bytes "P") ∷ (bytes "x", bytes "1") ∷ []) }

abbrev pub cluster : List Ref → Cluster
cluster unreadable = record {
  config_maps = (conn_a, on_primary) ∷ (conn_b, on_primary) ∷ [];
  deployments =
      (app_a, record { annotations = none }) ∷ (app_b, record { annotations = none }) ∷ [];
  unreadable = unreadable;
  read_only = [];
}

-- Their lines name what the runs below compute through.
unfoldable pub all_well : (Bool × List Error) × Cluster
unfolding switch patch_config_maps patch_one roll_deployments roll_one find has_ref ref_eq get put
    lookup insert contains str_eq
all_well = switch memory (config false) (bytes "now") (cluster [])

unreadable_b : (Bool × List Error) × Cluster
unfolding all_well
unreadable_b = switch memory (config false) (bytes "now") (cluster (conn_b ∷ []))

reports_switched : (all_well.0 ≡ (true, [])) × (unreadable_b.0.0 ≡ false)
unfolding all_well unreadable_b
reports_switched = (refl, refl)

switch-converges_example :
    ((r : Ref)
      → has_ref (conn_a ∷ conn_b ∷ []) r ≡ true
      → on_secondary memory (config false) all_well.1 r ≡ true)
    × ((r : Ref)
        → has_ref (app_a ∷ app_b ∷ []) r ≡ true
        → stamped memory (config false) all_well.1 r ≡ true)
unfolding all_well
switch-converges_example =
    switch-converges memory memory-IsLawful (config false) (bytes "now") (cluster []) refl refl

switch-twice_example :
    ((switch memory (config false) (bytes "then") all_well.1).0.0 ≡ false)
    × SameServer memory (switch memory (config false) (bytes "then") all_well.1).1 all_well.1
unfolding all_well
switch-twice_example =
    switch-twice memory memory-IsLawful (config false) (bytes "now") (bytes "then") (cluster [])
      refl refl

-- The ConfigMap of namespace b cannot be read, so its Deployment is left alone.
switch-spares_example :
    find app_b unreadable_b.1.deployments ≡ find app_b (cluster (conn_b ∷ [])).deployments
unfolding unreadable_b
switch-spares_example =
    switch-spares memory memory-IsLawful (config false) (bytes "now") (cluster (conn_b ∷ [])) conn_b
      app_b refl refl refl

switch-frame_example :
    ((c : Ref)
      → has_ref (conn_a ∷ conn_b ∷ []) c ≡ false
      → find c all_well.1.config_maps ≡ find c (cluster []).config_maps)
    × ((d : Ref)
        → has_ref (app_a ∷ app_b ∷ []) d ≡ false
        → find d all_well.1.deployments ≡ find d (cluster []).deployments)
    × ((c : Ref) (k : Str)
        → str_eq (bytes "k") k ≡ false
        → value_in (find c all_well.1.config_maps) k ≡ value_in (find c (cluster []).config_maps) k)
unfolding all_well
switch-frame_example = switch-frame memory memory-IsLawful (config false) (bytes "now") (cluster [])

writable : AreWritable [] (conn_a ∷ app_b ∷ [])
unfolding string has_ref ref_eq has_byte trim_space str_eq
writable = (
  record { target = refl; plain_namespace = refl; no_comma = refl; trimmed = refl },
  refl,
  (record { target = refl; plain_namespace = refl; no_comma = refl; trimmed = refl }, refl, tt),
)

parse_refs-join_example :
    parse_refs (join (bytes ",") (map string (conn_a ∷ app_b ∷ []))) (bytes "default")
    ≡ (conn_a ∷ app_b ∷ [], none)
parse_refs-join_example = parse_refs-join (bytes "default") (conn_a ∷ app_b ∷ []) writable

parsed :
    parse_refs (bytes "a/c, d,,a/c") (bytes "n")
    ≡ (conn_a ∷ ref_of (bytes "n") (bytes "d") ∷ [], none)
unfolding parse_refs split trim_space has_byte has_ref ref_eq str_eq cut_byte
parsed = refl
