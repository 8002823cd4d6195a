-- ===== src/Svchealth/Node/Pivot.antt =====
-- `ByNode` and `NodeSummary` against the probes (pkg/svchealth/node.go).
use mathlib.Core.List.{append-nil, append_assoc}
use couchbase_health_observe.Prelude.{
  Bool, true, false, not, ◌&&◌, ◌||◌, ◌≡◌, refl, ap, List, [], ◌∷◌, ◌++◌, Option, none, some, Str,
  is_nil, is_some, str_eq, str_eq_iff, if◌then◌else◌, arith, Bool-cases, inl, inr, map,
}
use couchbase_health_observe.Prelude.Dict.{
  Dict, lookup, keys, contains, lookup-insert, contains-keys,
}
use couchbase_health_observe.Prelude.Sort.{sort, contains-sort}
use couchbase_health_observe.Prelude.Ascending.{
  Distinct, Ascending, sort-Ascending, insert-Distinct,
}
use couchbase_health_observe.Svchealth.Types.{Probe}
use couchbase_health_observe.Svchealth.Node.{
  NodeHealth, NodeAgg, node_agg_or_empty, count_service, add_service, pivot, node_of, by_node,
}
use couchbase_health_observe.Svchealth.Node.Hosts.{seen}

abbrev pub at_host : Str → Probe → Bool
at_host h pr = not (is_nil pr.host) && str_eq pr.host h

-- The services of the probes of a host whose outcome is the given one, in probe order.
unfoldable pub services_at : Bool → Str → List Probe → List Str
services_at wanted h [] = []
services_at wanted h (pr ∷ probes) =
    if at_host h pr && (if wanted then pr.ok else not pr.ok)
    then pr.service ∷ services_at wanted h probes
    else services_at wanted h probes

abbrev extend : Str → Option NodeAgg → List Probe → Option NodeAgg
extend h o probes =
    if is_some o || seen h probes
    then some (record {
      reachable = (node_agg_or_empty o).reachable ++ services_at true h probes;
      unreachable = (node_agg_or_empty o).unreachable ++ services_at false h probes;
    })
    else none

lookup-add_service :
    (h : Str) (m : Dict NodeAgg) (pr : Probe)
    → lookup h (add_service m pr) ≡ (
        if at_host h pr
        then some (count_service pr (node_agg_or_empty (lookup h m)))
        else lookup h m)
unfolding add_service
lookup-add_service h m pr = ground (
  arith,
  str_eq_iff pr.host h,
  lookup-insert pr.host h (count_service pr (node_agg_or_empty (lookup pr.host m))) m,
)

lookup-pivot_from :
    (h : Str) (m : Dict NodeAgg) (probes : List Probe)
    → lookup h (pivot m probes) ≡ extend h (lookup h m) probes
unfolding pivot seen services_at count_service
lookup-pivot_from h m [] = ground (
  arith,
  append-nil (node_agg_or_empty (lookup h m)).unreachable,
  append-nil (node_agg_or_empty (lookup h m)).reachable,
)
lookup-pivot_from h m (pr ∷ probes) = ground (
  arith,
  lookup-pivot_from h (add_service m pr) probes,
  lookup-add_service h m pr,
  append_assoc (node_agg_or_empty (lookup h m)).unreachable (pr.service ∷ [])
      (services_at false h probes),
  append_assoc (node_agg_or_empty (lookup h m)).reachable (pr.service ∷ [])
      (services_at true h probes),
)

pub lookup-pivot :
    (h : Str) (probes : List Probe)
    → lookup h (pivot [] probes) ≡ (
        if seen h probes
        then some (record {
          reachable = services_at true h probes;
          unreachable = services_at false h probes;
        })
        else none)
unfolding lookup
lookup-pivot h probes = ground (arith, lookup-pivot_from h [] probes)

add_service-Distinct :
    (m : Dict NodeAgg) (pr : Probe) → Distinct (keys m) → Distinct (keys (add_service m pr))
unfolding add_service
add_service-Distinct m pr d = elim (Bool-cases (is_nil pr.host)) [
  | inl placeholder ↦ rw placeholder d
  | inr real ↦ rw real (insert-Distinct pr.host _ m d)
]

pub pivot-Distinct :
    (m : Dict NodeAgg) (probes : List Probe) → Distinct (keys m) → Distinct (keys (pivot m probes))
unfolding pivot
pivot-Distinct m [] d = d
pivot-Distinct m (pr ∷ probes) d =
    pivot-Distinct (add_service m pr) probes (add_service-Distinct m pr d)

abbrev pub hosts_of : List NodeHealth → List Str
hosts_of [] = []
hosts_of (n ∷ nodes) = n.host ∷ hosts_of nodes

unfoldable pub find_node : Str → List NodeHealth → Option NodeHealth
find_node h [] = none
find_node h (n ∷ nodes) = if str_eq n.host h then some n else find_node h nodes

abbrev pub sorted_hosts_of : List Probe → List Str
sorted_hosts_of probes = sort (keys (pivot [] probes))

pub contains-sorted_hosts_of :
    (h : Str) (probes : List Probe) → contains (sorted_hosts_of probes) h ≡ seen h probes
contains-sorted_hosts_of h probes = ground (
  arith,
  contains-sort (keys (pivot [] probes)) h,
  contains-keys (pivot [] probes) h,
  lookup-pivot h probes,
)

hosts_of-map : (m : Dict NodeAgg) (hs : List Str) → hosts_of (map (node_of m) hs) ≡ hs
unfolding node_of
hosts_of-map m [] = refl
hosts_of-map m (h ∷ hs) = ap (λ ks. h ∷ ks) (hosts_of-map m hs)

find_node-map :
    (h : Str) (m : Dict NodeAgg) (hs : List Str)
    → find_node h (map (node_of m) hs) ≡ (if contains hs h then some (node_of m h) else none)
unfolding find_node node_of contains
find_node-map h m [] = refl
find_node-map h m (i ∷ hs) = ground (arith, str_eq_iff i h, find_node-map h m hs)

-- The nodes come out strictly ascending by host, and a host has a node exactly if some probe saw
-- it. Its node lists, sorted, the services that answered there and those that did not.
by_node-find_node :
    (probes : List Probe)
    → Ascending (hosts_of (by_node probes))
      × ((h : Str)
          → find_node h (by_node probes) ≡ (
              if seen h probes
              then some (record {
                host = h;
                reachable = sort (services_at true h probes);
                unreachable = sort (services_at false h probes);
              })
              else none))
unfolding by_node keys
by_node-find_node probes = (
  rw hosts_of-map (sort-Ascending _ (pivot-Distinct [] probes tt)),
  λ h. ground (
    arith,
    find_node-map h (pivot [] probes) (sorted_hosts_of probes),
    contains-sorted_hosts_of h probes,
    lookup-pivot h probes,
  ),
)
