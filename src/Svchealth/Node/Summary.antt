-- ===== src/Svchealth/Node/Summary.antt =====
-- `NodeSummary` over the nodes of a round (pkg/svchealth/node.go).
use couchbase_health_observe.Prelude.{
  ◌≤◌, Bool, true, false, not, ◌&&◌, ◌||◌, ◌≡◌, ◌↔◌, List, [], ◌∷◌, Str, is_nil, str_eq_refl, arith,
  Bool-cases, inl, inr, any_of, map, length,
}
use couchbase_health_observe.Prelude.Dict.{keys, any_of-contains, any_of-witness}
use couchbase_health_observe.Prelude.Sort.{sort, length-sort, contains-sort}
use couchbase_health_observe.Prelude.Ascending.{sort-Ascending, Ascending-ext}
use couchbase_health_observe.Svchealth.Types.{Probe}
use couchbase_health_observe.Svchealth.Node.{node_of, pivot, by_node, node_summary, host_set}
use couchbase_health_observe.Svchealth.Node.Hosts.{seen, host_set-Distinct, contains-host_set}
use couchbase_health_observe.Svchealth.Node.Pivot.{
  services_at, lookup-pivot, sorted_hosts_of, contains-sorted_hosts_of, pivot-Distinct,
}

-- Some probe of the round failed at a host that exists.
unfoldable pub any_failing : List Probe → Bool
any_failing [] = false
any_failing (pr ∷ probes) = (not (is_nil pr.host) && not pr.ok) || any_failing probes

abbrev failing_at : List Probe → Str → Bool
failing_at probes h = not (is_nil (services_at false h probes))

any_failing-at :
    (h : Str) (probes : List Probe)
    → failing_at probes h ≡ true
    → (any_failing probes ≡ true) × (seen h probes ≡ true)
unfolding any_failing services_at seen
any_failing-at h [] f = cc
any_failing-at h (pr ∷ probes) f = ground (arith, any_failing-at h probes)

any_failing-witness :
    (probes : List Probe) → any_failing probes ≡ true → (h : Str) × (failing_at probes h ≡ true)
unfolding any_failing services_at
any_failing-witness [] f = cc
any_failing-witness (pr ∷ probes) f = elim (Bool-cases (any_failing probes)) [
  | inl later ↦ let (h, e) = any_failing-witness probes later in (h, ground arith)
  | inr none_later ↦ (pr.host, ground (arith, str_eq_refl pr.host))
]

any_of-failing_at :
    (probes : List Probe) → any_of (failing_at probes) (sorted_hosts_of probes) ≡ any_failing probes
any_of-failing_at probes = elim (Bool-cases (any_of (failing_at probes) (sorted_hosts_of probes))) [
  | inl found ↦
      let (h, listed, fails) = any_of-witness (failing_at probes) (sorted_hosts_of probes) found in
      ground (arith, any_failing-at h probes)
  | inr absent ↦ elim (Bool-cases (any_failing probes)) [
    | inl failing ↦
        let (h, fails) = any_failing-witness probes failing in
        ground (
          arith,
          any_failing-at h probes,
          contains-sorted_hosts_of h probes,
          any_of-contains (failing_at probes) (sorted_hosts_of probes) h,
        )
    | inr quiet ↦ ground arith
  ]
]

node_of-failing :
    (probes : List Probe) (h : Str)
    → is_nil (node_of (pivot [] probes) h).unreachable ≡ not (failing_at probes h)
unfolding node_of
node_of-failing probes h =
    ground (arith, lookup-pivot h probes, length-sort (services_at false h probes), unseen)
  where
    unseen : seen h probes ≡ false → failing_at probes h ≡ false
    unseen e = ground (arith, any_failing-at h probes)

node_summary-map :
    (probes : List Probe) (hs : List Str)
    → let (healthy, total) = node_summary (map (node_of (pivot [] probes)) hs) in
      (healthy ≤ total)
      × (total ≡ length hs)
      × ((healthy ≡ total) ↔ (any_of (failing_at probes) hs ≡ false))
unfolding node_summary
node_summary-map probes [] = ground arith
node_summary-map probes (h ∷ hs) =
    ground (arith, node_summary-map probes hs, node_of-failing probes h)

sorted_hosts_of-host_set : (probes : List Probe) → sorted_hosts_of probes ≡ sort (host_set probes)
unfolding keys
sorted_hosts_of-host_set probes =
    Ascending-ext (sorted_hosts_of probes) (sort (host_set probes))
      (sort-Ascending _ (pivot-Distinct [] probes tt)) (sort-Ascending _ (host_set-Distinct probes))
      λ h. ground (
        arith,
        contains-sorted_hosts_of h probes,
        contains-sort (host_set probes) h,
        contains-host_set h probes,
      )

-- Of the nodes of a round at most all are healthy, the total counts the distinct hosts that were
-- seen, and all are healthy exactly if no probe of a real host failed.
node_summary-by_node :
    (probes : List Probe)
    → let (healthy, total) = node_summary (by_node probes) in
      (healthy ≤ total)
      × (total ≡ length (host_set probes))
      × ((healthy ≡ total) ↔ (any_failing probes ≡ false))
unfolding by_node
node_summary-by_node probes = ground (
  arith,
  node_summary-map probes (sorted_hosts_of probes),
  any_of-failing_at probes,
  sorted_hosts_of-host_set probes,
  length-sort (host_set probes),
)
