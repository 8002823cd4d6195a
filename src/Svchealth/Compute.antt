-- ===== src/Svchealth/Compute.antt =====
-- `Compute` (pkg/svchealth/health.go): probes to per-service health and a global status.
pub mod Aggregate
pub mod Verdict
pub mod Reorder
use couchbase_health_observe.Prelude.{
  ℕ, ◌+◌, Bool, true, false, not, ◌||◌, List, [], ◌∷◌, ◌++◌, Option, none, some, Str, length,
  is_nil, ◌==◌, if◌then◌else◌,
}
use couchbase_health_observe.Prelude.Dict.{Dict, lookup, insert, keys, map_values, contains}
use couchbase_health_observe.Prelude.Sort.{sort}
use couchbase_health_observe.Svchealth.Types.{
  Status, up, degraded, down, is_down, Probe, ServiceHealth, Report, Reason, all_reachable,
  not_observed, critical_unreachable, non_critical_unreachable,
}

pub record Agg : Type 0 where
  pub reachable : ℕ
  pub unreachable : List Str

unfoldable pub empty_agg : Agg
empty_agg = record { reachable = 0; unreachable = [] }

abbrev pub agg_or_empty : Option Agg → Agg
unfolding empty_agg
agg_or_empty none = empty_agg
agg_or_empty (some a) = a

-- The update of `*agg` for one probe.
unfoldable pub count_probe : Probe → Agg → Agg
count_probe pr a =
    if pr.ok
    then record a { reachable = a.reachable + 1 }
    else record a { unreachable = a.unreachable ++ (pr.host ∷ []) }

-- One round of the loop over the probes; an empty host is a placeholder, and is passed over.
unfoldable pub add_probe : Dict Agg → Probe → Dict Agg
unfolding count_probe empty_agg
add_probe by_service pr =
    if is_nil pr.host
    then by_service
    else insert pr.service (count_probe pr (agg_or_empty (lookup pr.service by_service))) by_service

unfoldable pub aggregate : Dict Agg → List Probe → Dict Agg
aggregate by_service [] = by_service
aggregate by_service (pr ∷ probes) = aggregate (add_probe by_service pr) probes

-- The body of the loop that fills `services`.
unfoldable pub service_health : Agg → ServiceHealth
service_health a = record {
  status = if not (is_nil a.unreachable) || a.reachable == 0 then down else up;
  reachable = a.reachable;
  unreachable = sort a.unreachable;
}

-- The loop over the critical services, up to its `break`: the reason for a DOWN, if there is one.
unfoldable pub critical_loop : Dict ServiceHealth → List Str → Option Reason
critical_loop services [] = none
critical_loop services (svc ∷ critical) = elim (lookup svc services) [
  | none ↦ some (not_observed svc)
  | some sh ↦ elim (is_down sh.status) [
    | true ↦
        some
          (critical_unreachable svc (length sh.unreachable) (sh.reachable + length sh.unreachable))
    | false ↦ critical_loop services critical
  ]
]

-- The loop over the sorted names, up to its `break`: the reason for a DEGRADED. A name that is not
-- in the map cannot come up; `services[name]` would be the zero value, whose status is not DOWN.
unfoldable pub degraded_loop : Dict ServiceHealth → List Str → List Str → Option Reason
degraded_loop services critical [] = none
degraded_loop services critical (name ∷ names) =
    let rest = degraded_loop services critical names in
    if contains critical name then rest else elim (lookup name services) [
      | none ↦ rest
      | some sh ↦
          if is_down sh.status
          then some (
              non_critical_unreachable name (length sh.unreachable)
                (sh.reachable + length sh.unreachable))
          else rest
    ]

-- The two loops in turn: the second runs only where the first found nothing.
unfoldable pub verdict : Dict ServiceHealth → List Str → List Str → Status × Reason
verdict services critical names = elim (critical_loop services critical) [
  | some reason ↦ (down, reason)
  | none ↦ elim (degraded_loop services critical names) [
    | some reason ↦ (degraded, reason)
    | none ↦ (up, all_reachable)
  ]
]

unfoldable pub compute : List Probe → List Str → Str → Report
unfolding aggregate add_probe service_health critical_loop degraded_loop verdict
compute probes critical checked_at =
    let services = map_values service_health (aggregate [] probes) in
    let (global, reason) = verdict services critical (sort (keys services)) in
    record {
      status = global;
      critical = critical;
      services = services;
      reason = reason;
      checked_at = checked_at;
    }
