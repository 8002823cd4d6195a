-- ===== src/Tests/HealthTests.antt =====
-- A round of probes of two nodes (pkg/svchealth): the report, the nodes, the hosts, the endpoint.
use couchbase_health_observe.Prelude.{
  Bool, true, false, ◌≡◌, refl, List, [], ◌∷◌, Str, bytes, if◌then◌else◌, all_of, str_eq,
}
use mathlib.Core.List.{Permᴰ}
use couchbase_health_observe.Prelude.Dict.{contains}
use couchbase_health_observe.Svchealth.Types.{up, degraded, down, Probe}
use couchbase_health_observe.Svchealth.Compute.{compute}
use couchbase_health_observe.Svchealth.Compute.Aggregate.{observed}
use couchbase_health_observe.Svchealth.Compute.Verdict.{
  none_failing, healthy, stray_failure, compute-status,
}
use couchbase_health_observe.Svchealth.Compute.Reorder.{SameReport, compute-perm}

abbrev probe_of : Str → Str → Bool → Probe
probe_of service host ok = record { service = service; host = host; ok = ok }

abbrev kv_up : Probe
kv_up = probe_of (bytes "kv") (bytes "a") true

abbrev query_down : Probe
query_down = probe_of (bytes "query") (bytes "b") false

abbrev a_round : List Probe
a_round = kv_up ∷ query_down ∷ []

abbrev critical : List Str
critical = bytes "kv" ∷ []

compute-status_example : (compute a_round critical []).status ≡ (
    if all_of (healthy a_round) critical
    then if stray_failure critical a_round then degraded else up
    else down)
compute-status_example = compute-status a_round critical []

degraded_round : (compute a_round critical []).status ≡ degraded
unfolding healthy stray_failure observed none_failing contains str_eq
degraded_round = compute-status_example

compute-perm_example :
    SameReport
      (compute (kv_up ∷ query_down ∷ []) critical [])
      (compute (query_down ∷ kv_up ∷ []) critical [])
compute-perm_example = compute-perm critical [] (Permᴰ.swap refl refl)
