-- ===== src/Obslog/Events.antt =====
-- `renderEvent` (pkg/obslog/human.go): the component and the message of an event. What slog prints of
-- a value is its library's, and so is the rounding of a float.
use couchbase_health_observe.Prelude.{
  Bool, [], ◌∷◌, ◌++◌, Option, none, some, Str, bytes, str_eq, is_nil, is_some, if◌then◌else◌, map,
}
use couchbase_health_observe.Prelude.Dict.{Dict, lookup}
use couchbase_health_observe.Prelude.Strings.{strip_prefix}
use couchbase_health_observe.Obslog.Addresses.{address_list}
use couchbase_health_observe.Obslog.Formats.{Format, formats, find_format, sprintf}

-- What is read of a float: whether it is at least 1, and what %.0f prints.
pub record Float64 : Type 0 where
  pub at_least_one : Bool
  pub rounded : Str

-- A `slog.Value`: what its `String` gives, and the float that it is, if it is one.
pub record Value : Type 0 where
  pub string : Str
  pub float : Option Float64

abbrev pub string_of : Option Value → Str
string_of none = []
string_of (some v) = v.string

-- The closure `at`.
unfoldable pub at : Dict Value → Str → Str
at f k = string_of (lookup k f)

abbrev down_for : Option Value → Str
down_for none = []
down_for (some v) = elim v.float [
  | none ↦ []
  | some x ↦ if x.at_least_one then bytes "down " ++ (x.rounded ++ bytes "s; ") else []
]

unfoldable pub health_message : (Str → Str) → Option Value → Str
unfolding sprintf
health_message at sustained =
    let region = at (bytes "active_region") in
    let status = at (bytes "status") in
    let tail =
      if str_eq (at (bytes "switched")) (bytes "true")
      then bytes "already switched, holding"
      else if str_eq (at (bytes "switch_required")) (bytes "true")
      then bytes "switch required"
      else bytes "no switch yet" in
    if str_eq status (bytes "UP")
    then sprintf (bytes "%s UP - all critical services reachable") (region ∷ [])
    else if str_eq status (bytes "DEGRADED")
    then sprintf (bytes "%s DEGRADED - %s (active)") (region ∷ at (bytes "reason") ∷ [])
    else sprintf (bytes "%s DOWN - %s (active; %s%s)")
        (region ∷ at (bytes "reason") ∷ down_for sustained ∷ tail ∷ [])

unfoldable pub cluster_detail_message : (Str → Str) → Str
unfolding sprintf strip_prefix
cluster_detail_message at =
    let region = at (bytes "listening") in
    if is_some (strip_prefix (bytes "0/0") (at (bytes "nodes")))
    then sprintf (bytes "%s: no nodes in cluster map") (region ∷ [])
    else sprintf (bytes "%s: %s nodes reachable") (region ∷ at (bytes "nodes") ∷ [])

unfoldable pub cluster_nodes_message : (Str → Str) → Str
unfolding sprintf
cluster_nodes_message at =
    if is_nil (at (bytes "nodes"))
    then sprintf (bytes "%s nodes: (none reachable)") (at (bytes "region") ∷ [])
    else sprintf (bytes "%s nodes: %s") (at (bytes "region") ∷ at (bytes "nodes") ∷ [])

unfoldable pub map_change_message : (Str → Str) → Str
unfolding sprintf
map_change_message at =
    let verb =
      if str_eq (at (bytes "action")) (bytes "removed") then bytes "left" else bytes "joined" in
    sprintf (bytes "%s: node %s %s the cluster map")
      (at (bytes "cluster") ∷ at (bytes "host") ∷ verb ∷ [])

unfoldable pub configmap_patch_message : (Str → Str) → Str
unfolding sprintf address_list
configmap_patch_message at = sprintf (bytes "Patching ConfigMap %s (ns=%s): %s -> %s") (
    at (bytes "configmap")
    ∷ at (bytes "namespace")
    ∷ address_list (at (bytes "from"))
    ∷ address_list (at (bytes "to"))
    ∷ [])

abbrev formatted : (Str → Str) → Option Format → Option (Str × Str)
unfolding sprintf
formatted at none = none
formatted at (some f) = some (f.component, sprintf f.text (map at f.fields))

-- The cases of the `switch`: the component and the message of an event that is known.
unfoldable pub known_event : Str → (Str → Str) → Option Value → Option (Str × Str)
unfolding health_message cluster_detail_message cluster_nodes_message map_change_message
    configmap_patch_message find_format formats
known_event event at sustained =
    if str_eq event (bytes "health")
    then some (bytes "health", health_message at sustained)
    else if str_eq event (bytes "cluster_detail")
    then some (bytes "cluster", cluster_detail_message at)
    else if str_eq event (bytes "cluster_nodes")
    then some (bytes "cluster", cluster_nodes_message at)
    else if str_eq event (bytes "cluster_map_change")
    then some (bytes "cluster", map_change_message at)
    else if str_eq event (bytes "configmap_patch")
    then some (bytes "actuator", configmap_patch_message at)
    else formatted at (find_format event formats)

-- The fields of an unknown event, in the order in which the range comes upon them.
unfoldable pub dump : Dict Value → Str
dump [] = []
dump ((k, v) ∷ f) = (b' ' ∷ k ++ (b'=' ∷ v.string)) ++ dump f

unfoldable pub render_event : Str → Dict Value → Str × Str
unfolding known_event at dump
render_event event f = elim (known_event event (at f) (lookup (bytes "sustained_down_s") f)) [
  | some line ↦ line
  | none ↦ (bytes "observer", event ++ dump f)
]
