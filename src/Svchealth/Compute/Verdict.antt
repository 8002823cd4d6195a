-- ===== src/Svchealth/Compute/Verdict.antt =====
-- The global status of `Compute`, stated on the probes alone (pkg/svchealth/health.go).
use couchbase_health_observe.Prelude.{
  ◌<◌, Bool, true, false, not, ◌&&◌, ◌||◌, ◌≡◌, refl, List, [], ◌∷◌, none, some, Str, is_nil,
  is_some, is_none, str_eq_iff, str_eq_refl, if◌then◌else◌, arith, Bool-cases, inl, inr, all_of,
  any_of,
}
use couchbase_health_observe.Prelude.Dict.{
  Dict, lookup, keys, contains, contains-keys, map_values, lookup-map_values, any_of-contains,
  any_of-witness,
}
use couchbase_health_observe.Prelude.Sort.{sort, contains-sort}
use couchbase_health_observe.Svchealth.Types.{up, degraded, down, Probe, ServiceHealth}
use couchbase_health_observe.Svchealth.Compute.{
  aggregate, service_health, critical_loop, degraded_loop, verdict, compute,
}
use couchbase_health_observe.Svchealth.Compute.Aggregate.{
  counts_for, observed, ok_count, failing_hosts, lookup-aggregate,
}

-- No probe that counts for the service failed.
unfoldable pub none_failing : Str → List Probe → Bool
none_failing svc [] = true
none_failing svc (pr ∷ probes) = (not (counts_for svc pr) || pr.ok) && none_failing svc probes

-- The service was seen, and none of its endpoints failed.
unfoldable pub healthy : List Probe → Str → Bool
healthy probes svc = observed svc probes && none_failing svc probes

-- Some endpoint of a service outside the list failed.
unfoldable pub stray_failure : List Str → List Probe → Bool
stray_failure critical [] = false
stray_failure critical (pr ∷ probes) =
    (not (is_nil pr.host) && not pr.ok && not (contains critical pr.service))
    || stray_failure critical probes

failing_hosts-none_failing :
    (svc : Str) (probes : List Probe) → is_nil (failing_hosts svc probes) ≡ none_failing svc probes
unfolding failing_hosts none_failing
failing_hosts-none_failing svc [] = refl
failing_hosts-none_failing svc (pr ∷ probes) = ground (arith, failing_hosts-none_failing svc probes)

ok_count-observed :
    (svc : Str) (probes : List Probe)
    → observed svc probes ≡ true
    → none_failing svc probes ≡ true
    → 0 < ok_count svc probes
unfolding observed none_failing ok_count
ok_count-observed svc [] o h = cc
ok_count-observed svc (pr ∷ probes) o h = ground (arith, ok_count-observed svc probes)

abbrev pub services_of : List Probe → Dict ServiceHealth
services_of probes = map_values service_health (aggregate [] probes)

-- The health of a service in the report: absent where it was not observed, UP where none of its
-- endpoints failed, DOWN where one did.
pub lookup-services_of :
    (svc : Str) (probes : List Probe)
    → lookup svc (services_of probes) ≡ (
        if observed svc probes
        then some (record {
          status = if none_failing svc probes then up else down;
          reachable = ok_count svc probes;
          unreachable = sort (failing_hosts svc probes);
        })
        else none)
unfolding service_health
lookup-services_of svc probes =
    rw (lookup-map_values, lookup-aggregate)
      (ground (arith, failing_hosts-none_failing svc probes, ok_count-observed svc probes))

critical_loop-healthy :
    (probes : List Probe) (critical : List Str)
    → is_none (critical_loop (services_of probes) critical) ≡ all_of (healthy probes) critical
unfolding critical_loop healthy
critical_loop-healthy probes [] = refl
critical_loop-healthy probes (svc ∷ critical) =
    ground (arith, lookup-services_of svc probes, critical_loop-healthy probes critical)

degraded_loop-any_of :
    (probes : List Probe) (critical names : List Str)
    → is_some (degraded_loop (services_of probes) critical names)
      ≡ any_of
          (λ name.
            not (contains critical name)
            && (observed name probes && not (none_failing name probes)))
          names
unfolding degraded_loop
degraded_loop-any_of probes critical [] = refl
degraded_loop-any_of probes critical (name ∷ names) =
    ground (arith, lookup-services_of name probes, degraded_loop-any_of probes critical names)

none_failing-observed :
    (svc : Str) (probes : List Probe) → none_failing svc probes ≡ false → observed svc probes ≡ true
unfolding observed none_failing
none_failing-observed svc [] h = cc
none_failing-observed svc (pr ∷ probes) h = ground (arith, none_failing-observed svc probes)

stray_failure-witness :
    (critical : List Str) (probes : List Probe)
    → stray_failure critical probes ≡ true
    → (svc : Str) × (contains critical svc ≡ false) × (none_failing svc probes ≡ false)
unfolding stray_failure none_failing
stray_failure-witness critical [] h = cc
stray_failure-witness critical (pr ∷ probes) h = elim (Bool-cases (stray_failure critical probes)) [
  | inl later ↦
      let (svc, outside, failing) = stray_failure-witness critical probes later in
      (svc, outside, ground arith)
  | inr none_later ↦ (pr.service, ground arith, ground (arith, str_eq_refl pr.service))
]

stray_failure-of_failing :
    (critical : List Str) (svc : Str) (probes : List Probe)
    → contains critical svc ≡ false
    → none_failing svc probes ≡ false
    → stray_failure critical probes ≡ true
unfolding stray_failure none_failing
stray_failure-of_failing critical svc [] c h = cc
stray_failure-of_failing critical svc (pr ∷ probes) c h =
    ground (arith, str_eq_iff pr.service svc, stray_failure-of_failing critical svc probes)

abbrev is_stray : List Probe → List Str → Str → Bool
is_stray probes critical name =
    not (contains critical name) && (observed name probes && not (none_failing name probes))

abbrev pub names_of : List Probe → List Str
names_of probes = sort (keys (services_of probes))

pub contains-names_of :
    (probes : List Probe) (svc : Str) → contains (names_of probes) svc ≡ observed svc probes
contains-names_of probes svc = ground (
  arith,
  contains-sort (keys (services_of probes)) svc,
  contains-keys (services_of probes) svc,
  lookup-services_of svc probes,
)

any_of-is_stray :
    (probes : List Probe) (critical : List Str)
    → any_of (is_stray probes critical) (names_of probes) ≡ stray_failure critical probes
any_of-is_stray probes critical =
    elim (Bool-cases (any_of (is_stray probes critical) (names_of probes))) [
      | inl found ↦
          let (svc, listed, stray) = any_of-witness _ (names_of probes) found in
          ground (arith, stray_failure-of_failing critical svc probes)
      | inr absent ↦ elim (Bool-cases (stray_failure critical probes)) [
        | inl failing ↦
            let (svc, outside, fails) = stray_failure-witness critical probes failing in
            ground (
              arith,
              none_failing-observed svc probes,
              contains-names_of probes svc,
              any_of-contains (is_stray probes critical) (names_of probes) svc,
            )
        | inr quiet ↦ ground arith
      ]
    ]

-- The global status is DOWN exactly where some critical service was not observed or has a failing
-- endpoint; where all critical services are healthy it is DEGRADED if an endpoint of another
-- service failed, and UP if none did. Probes with an empty host count for nothing.
pub compute-status :
    (probes : List Probe) (critical : List Str) (checked_at : Str)
    → (compute probes critical checked_at).status ≡ (
        if all_of (healthy probes) critical
        then if stray_failure critical probes then degraded else up
        else down)
unfolding verdict
compute-status probes critical checked_at =
    unfold compute in
    ground (
      arith,
      critical_loop-healthy probes critical,
      degraded_loop-any_of probes critical (names_of probes),
      any_of-is_stray probes critical,
    )
