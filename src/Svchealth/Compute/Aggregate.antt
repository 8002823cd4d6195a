-- ===== src/Svchealth/Compute/Aggregate.antt =====
-- The aggregate of a list of probes, service by service (pkg/svchealth/health.go).
use couchbase_health_observe.Prelude.{
  ℕ, ◌+◌, Bool, false, not, ◌&&◌, ◌||◌, ◌≡◌, List, [], ◌∷◌, ◌++◌, Option, none, some, Str, is_nil,
  is_some, str_eq, str_eq_iff, if◌then◌else◌, arith,
}
use mathlib.Core.List.{append-nil, append_assoc}
use couchbase_health_observe.Prelude.Dict.{Dict, lookup, lookup-insert}
use couchbase_health_observe.Svchealth.Types.{Probe}
use couchbase_health_observe.Svchealth.Compute.{
  Agg, empty_agg, agg_or_empty, count_probe, add_probe, aggregate,
}

-- A probe that counts for a service: of that service, and of a node that exists.
abbrev pub counts_for : Str → Probe → Bool
counts_for svc pr = not (is_nil pr.host) && str_eq pr.service svc

unfoldable pub observed : Str → List Probe → Bool
observed svc [] = false
observed svc (pr ∷ probes) = counts_for svc pr || observed svc probes

unfoldable pub ok_count : Str → List Probe → ℕ
ok_count svc [] = 0
ok_count svc (pr ∷ probes) = (if counts_for svc pr && pr.ok then 1 else 0) + ok_count svc probes

unfoldable pub failing_hosts : Str → List Probe → List Str
failing_hosts svc [] = []
failing_hosts svc (pr ∷ probes) =
    if counts_for svc pr && not pr.ok
    then pr.host ∷ failing_hosts svc probes
    else failing_hosts svc probes

-- An aggregate, extended by later probes.
abbrev extend : Str → Option Agg → List Probe → Option Agg
unfolding empty_agg
extend svc o probes =
    if is_some o || observed svc probes
    then some (record {
      reachable = (agg_or_empty o).reachable + ok_count svc probes;
      unreachable = (agg_or_empty o).unreachable ++ failing_hosts svc probes;
    })
    else none

lookup-add_probe :
    (svc : Str) (m : Dict Agg) (pr : Probe)
    → lookup svc (add_probe m pr) ≡ (
        if counts_for svc pr
        then some (count_probe pr (agg_or_empty (lookup svc m)))
        else lookup svc m)
unfolding add_probe
lookup-add_probe svc m pr = ground (
  arith,
  str_eq_iff pr.service svc,
  lookup-insert pr.service svc (count_probe pr (agg_or_empty (lookup pr.service m))) m,
)

lookup-aggregate_from :
    (svc : Str) (m : Dict Agg) (probes : List Probe)
    → lookup svc (aggregate m probes) ≡ extend svc (lookup svc m) probes
unfolding aggregate observed ok_count failing_hosts count_probe empty_agg
lookup-aggregate_from svc m [] =
    ground (arith, append-nil (agg_or_empty (lookup svc m)).unreachable)
lookup-aggregate_from svc m (pr ∷ probes) = ground (
  arith,
  lookup-aggregate_from svc (add_probe m pr) probes,
  lookup-add_probe svc m pr,
  append_assoc (agg_or_empty (lookup svc m)).unreachable (pr.host ∷ []) (failing_hosts svc probes),
)

pub lookup-aggregate :
    (svc : Str) (probes : List Probe)
    → lookup svc (aggregate [] probes) ≡ (
        if observed svc probes
        then some
            (record { reachable = ok_count svc probes; unreachable = failing_hosts svc probes })
        else none)
unfolding lookup empty_agg
lookup-aggregate svc probes = ground (arith, lookup-aggregate_from svc [] probes)
