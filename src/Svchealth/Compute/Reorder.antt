-- ===== src/Svchealth/Compute/Reorder.antt =====
-- The report does not depend on the order of the probes (pkg/svchealth/health.go): Go's map
-- iteration in `mapReports` hands them over in any order.
use mathlib.Core.List.{Permᴰ}
use couchbase_health_observe.Prelude.{
  ◌≡◌, refl, sym, ◌∙◌, List, [], ◌∷◌, Str, is_nil, arith, Bool-cases, inl, inr,
}
use couchbase_health_observe.Prelude.Dict.{Dict, lookup, keys}
use couchbase_health_observe.Prelude.Sort.{sort, insort_comm}
use couchbase_health_observe.Prelude.Ascending.{
  Distinct, Ascending, sort-Ascending, Ascending-ext, insert-Distinct, keys-map_values,
}
use couchbase_health_observe.Svchealth.Types.{Probe, ServiceHealth, Report}
use couchbase_health_observe.Svchealth.Compute.{
  Agg, add_probe, aggregate, critical_loop, degraded_loop, verdict, compute,
}
use couchbase_health_observe.Svchealth.Compute.Aggregate.{observed, ok_count, failing_hosts}
use couchbase_health_observe.Svchealth.Compute.Verdict.{
  none_failing, services_of, lookup-services_of, names_of, contains-names_of,
}

-- What the report reads of the probes of one service.
record SameService (svc : Str) (ps qs : List Probe) : Type 0 where
  same_observed : observed svc ps ≡ observed svc qs
  same_failing : none_failing svc ps ≡ none_failing svc qs
  same_count : ok_count svc ps ≡ ok_count svc qs
  same_hosts : sort (failing_hosts svc ps) ≡ sort (failing_hosts svc qs)

Permᴰ-SameService : (svc : Str) {ps qs : List Probe} → Permᴰ ps qs → SameService svc ps qs
unfolding observed none_failing ok_count failing_hosts sort
Permᴰ-SameService svc Permᴰ.nil = ground arith
Permᴰ-SameService svc (Permᴰ.cons {a = p} {b = q} {l₁ = ps} {l₂ = qs} e perm) =
    let same = Permᴰ-SameService svc perm in
    rw e (ground (arith, same.same_observed, same.same_failing, same.same_count, same.same_hosts))
Permᴰ-SameService svc (Permᴰ.swap {a = p} {b = q} {l = ps} d e) =
    rw (d, e) (ground (arith, insort_comm p.host q.host (sort (failing_hosts svc ps))))
Permᴰ-SameService svc (Permᴰ.trans {l₁ = ps} {l₂ = qs} {l₃ = rs} first then_) =
    let a = Permᴰ-SameService svc first in
    let b = Permᴰ-SameService svc then_ in
    record {
      same_observed = a.same_observed ∙ b.same_observed;
      same_failing = a.same_failing ∙ b.same_failing;
      same_count = a.same_count ∙ b.same_count;
      same_hosts = a.same_hosts ∙ b.same_hosts;
    }

add_probe-Distinct :
    (m : Dict Agg) (p : Probe) → Distinct (keys m) → Distinct (keys (add_probe m p))
unfolding add_probe
add_probe-Distinct m p d = elim (Bool-cases (is_nil p.host)) [
  | inl placeholder ↦ rw placeholder d
  | inr real ↦ rw real (insert-Distinct p.service _ m d)
]

aggregate-Distinct :
    (m : Dict Agg) (ps : List Probe) → Distinct (keys m) → Distinct (keys (aggregate m ps))
unfolding aggregate
aggregate-Distinct m [] d = d
aggregate-Distinct m (p ∷ ps) d = aggregate-Distinct (add_probe m p) ps (add_probe-Distinct m p d)

names_of-Ascending : (ps : List Probe) → Ascending (names_of ps)
unfolding keys
names_of-Ascending ps =
    rw keys-map_values (sort-Ascending (keys (aggregate [] ps)) (aggregate-Distinct [] ps tt))

names_of-eq : {ps qs : List Probe} → Permᴰ ps qs → names_of ps ≡ names_of qs
names_of-eq {ps} {qs} perm =
    Ascending-ext (names_of ps) (names_of qs) (names_of-Ascending ps) (names_of-Ascending qs) λ svc.
      contains-names_of ps svc
      ∙ (Permᴰ-SameService svc perm).same_observed
      ∙ sym (contains-names_of qs svc)

lookup-services_of-eq :
    {ps qs : List Probe}
    → Permᴰ ps qs
    → (svc : Str) → lookup svc (services_of ps) ≡ lookup svc (services_of qs)
lookup-services_of-eq {ps} {qs} perm svc =
    let same = Permᴰ-SameService svc perm in
    ground (
      arith,
      lookup-services_of svc ps,
      lookup-services_of svc qs,
      same.same_observed,
      same.same_failing,
      same.same_count,
      same.same_hosts,
    )

module _ (m n : Dict ServiceHealth) (agree : (k : Str) → lookup k m ≡ lookup k n) where
  critical_loop-eq : (critical : List Str) → critical_loop m critical ≡ critical_loop n critical
  unfolding critical_loop
  critical_loop-eq [] = refl
  critical_loop-eq (svc ∷ critical) = ground (arith, agree svc, critical_loop-eq critical)

  degraded_loop-eq :
      (critical names : List Str) → degraded_loop m critical names ≡ degraded_loop n critical names
  unfolding degraded_loop
  degraded_loop-eq critical [] = refl
  degraded_loop-eq critical (name ∷ names) =
      ground (arith, agree name, degraded_loop-eq critical names)

  verdict-eq : (critical names : List Str) → verdict m critical names ≡ verdict n critical names
  unfolding verdict
  verdict-eq critical names =
      ground (arith, critical_loop-eq critical, degraded_loop-eq critical names)

-- Two reports that agree in everything that can be read of them: a map has no order.
pub record SameReport (r s : Report) : Type 0 where
  pub same_status : r.status ≡ s.status
  pub same_critical : r.critical ≡ s.critical
  pub same_services : (svc : Str) → lookup svc r.services ≡ lookup svc s.services
  pub same_reason : r.reason ≡ s.reason
  pub same_checked_at : r.checked_at ≡ s.checked_at

-- Any two orders of the same probes give the same report: global status, reason, and for every
-- service its status, its count of reachable endpoints and its list of unreachable hosts.
pub compute-perm :
    {ps qs : List Probe} (critical : List Str) (checked_at : Str)
    → Permᴰ ps qs
    → SameReport (compute ps critical checked_at) (compute qs critical checked_at)
compute-perm {ps} {qs} critical checked_at perm =
    let agree = lookup-services_of-eq perm in
    let names = names_of-eq perm in
    let verdicts = verdict-eq (services_of ps) (services_of qs) agree critical (names_of ps) in
    unfold compute in
    record {
      same_status = ground (arith, verdicts, names);
      same_critical = refl;
      same_services = agree;
      same_reason = ground (arith, verdicts, names);
      same_checked_at = refl;
    }
