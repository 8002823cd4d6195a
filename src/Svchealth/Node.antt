-- ===== src/Svchealth/Node.antt =====
-- The per-node view and the host sets (pkg/svchealth/node.go).
pub mod Pivot
pub mod Hosts
pub mod Summary
use couchbase_health_observe.Prelude.{
  ℕ, suc, ◌+◌, Bool, true, false, not, ◌||◌, List, [], ◌∷◌, ◌++◌, Option, none, some, Str, bytes,
  join, length, is_nil, if◌then◌else◌, map,
}
use couchbase_health_observe.Prelude.Dict.{Dict, lookup, insert, keys, contains}
use couchbase_health_observe.Prelude.Sort.{sort}
use couchbase_health_observe.Svchealth.Types.{Probe}

pub record NodeHealth : Type 0 where
  pub host : Str
  pub reachable : List Str
  pub unreachable : List Str

pub record NodeAgg : Type 0 where
  pub reachable : List Str
  pub unreachable : List Str

abbrev pub node_agg_or_empty : Option NodeAgg → NodeAgg
node_agg_or_empty none = record { reachable = []; unreachable = [] }
node_agg_or_empty (some a) = a

unfoldable pub count_service : Probe → NodeAgg → NodeAgg
count_service pr a =
    if pr.ok
    then record a { reachable = a.reachable ++ (pr.service ∷ []) }
    else record a { unreachable = a.unreachable ++ (pr.service ∷ []) }

-- One round of the loop of `ByNode`.
unfoldable pub add_service : Dict NodeAgg → Probe → Dict NodeAgg
unfolding count_service
add_service by_host pr =
    if is_nil pr.host
    then by_host
    else insert pr.host (count_service pr (node_agg_or_empty (lookup pr.host by_host))) by_host

unfoldable pub pivot : Dict NodeAgg → List Probe → Dict NodeAgg
pivot by_host [] = by_host
pivot by_host (pr ∷ probes) = pivot (add_service by_host pr) probes

-- The body of the loop over the sorted hosts, each of which is a key of the map.
unfoldable pub node_of : Dict NodeAgg → Str → NodeHealth
node_of by_host h =
    let a = node_agg_or_empty (lookup h by_host) in
    record { host = h; reachable = sort a.reachable; unreachable = sort a.unreachable }

unfoldable pub by_node : List Probe → List NodeHealth
unfolding pivot add_service node_of
by_node probes = let by_host = pivot [] probes in map (node_of by_host) (sort (keys by_host))

unfoldable pub node_summary : List NodeHealth → ℕ × ℕ
node_summary [] = (0, 0)
node_summary (n ∷ nodes) =
    let (healthy, total) = node_summary nodes in
    ((if is_nil n.unreachable then suc healthy else healthy), suc total)

unfoldable pub render_node : NodeHealth → Str
render_node n =
    if is_nil n.unreachable
    then n.host ++ (bytes " UP(" ++ (join (bytes " ") n.reachable ++ bytes ")"))
    else n.host ++ (bytes " DOWN(" ++ (join (bytes " ") n.unreachable ++ bytes ")"))

unfoldable pub render_nodes : List NodeHealth → Str
unfolding render_node
render_nodes nodes = join (bytes ", ") (map render_node nodes)

-- A set of hosts; only membership can be read of it.
unfoldable pub host_set_from : List Str → List Probe → List Str
host_set_from set [] = set
host_set_from set (pr ∷ probes) =
    host_set_from (if is_nil pr.host || contains set pr.host then set else pr.host ∷ set) probes

unfoldable pub host_set : List Probe → List Str
unfolding host_set_from
host_set probes = host_set_from [] probes

-- One of the two loops of `DiffHosts`: the hosts that the other set lacks.
unfoldable pub missing_from : List Str → List Str → List Str
missing_from set [] = []
missing_from set (h ∷ hs) =
    let rest = missing_from set hs in if contains set h then rest else h ∷ rest

-- The hosts added and the hosts removed.
unfoldable pub diff_hosts : List Str → List Str → List Str × List Str
unfolding missing_from
diff_hosts prev cur = (sort (missing_from prev cur), sort (missing_from cur prev))
