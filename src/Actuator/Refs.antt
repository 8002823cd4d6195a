-- ===== src/Actuator/Refs.antt =====
-- Parsing of the targets, and the check of their namespaces (pkg/actuator/refs.go).
pub mod Parsing
pub mod Pairing
use couchbase_health_observe.Prelude.{
  Bool, true, false, ◌||◌, List, [], ◌∷◌, ◌++◌, Option, none, some, Str, is_nil, if◌then◌else◌,
}
use couchbase_health_observe.Prelude.Dict.{contains}
use couchbase_health_observe.Prelude.Sort.{sort}
use couchbase_health_observe.Prelude.Strings.{cut_byte, has_byte, split}
use couchbase_health_observe.Prelude.Strings.Space.{trim_space}
use couchbase_health_observe.Actuator.Types.{Ref, has_ref, Error, invalid_target, no_target}

-- Namespace and name of an entry: what stands before and after its first slash, if it has one.
unfoldable pub qualify : Str → Str → Str × Str
unfolding cut_byte
qualify default_ns entry = elim (cut_byte b'/' entry) [
  | some (ns, name) ↦ (ns, name)
  | none ↦ (default_ns, entry)
]

-- The loop over the entries; the set `seen` holds just the refs of `out`.
unfoldable pub parse_entries : Str → List Ref → List Str → List Ref × Option Error
parse_entries default_ns out [] = (out, none)
parse_entries default_ns out (raw ∷ entries) =
    let entry = trim_space raw in
    let (ns, name) = qualify default_ns entry in
    let r : Ref = record { namespace = ns; name = name } in
    let skipped = parse_entries default_ns out entries in
    let added = parse_entries default_ns (out ++ (r ∷ [])) entries in
    if is_nil entry
    then skipped
    else if is_nil ns || is_nil name || has_byte b'/' name
    then ([], some (invalid_target entry ns))
    else if has_ref out r
    then skipped
    else added

unfoldable pub parse_refs : Str → Str → List Ref × Option Error
unfolding parse_entries qualify
parse_refs list default_ns = parse_entries default_ns [] (split b',' list)

unfoldable pub parse_refs_required : Str → Str → List Ref × Option Error
unfolding parse_refs
parse_refs_required list default_ns =
    let (refs, err) = parse_refs list default_ns in
    elim err [
      | some e ↦ ([], some e)
      | none ↦ if is_nil refs then ([], some (no_target list)) else (refs, none)
    ]

unfoldable pub namespaces_of : List Ref → List Str
namespaces_of [] = []
namespaces_of (r ∷ refs) = r.namespace ∷ namespaces_of refs

-- The loop over the Deployments; the set `seen` holds just the namespaces of `out`.
unfoldable pub unpaired_loop : List Str → List Str → List Ref → List Str
unpaired_loop has_config_map out [] = out
unpaired_loop has_config_map out (r ∷ refs) =
    unpaired_loop has_config_map
      (if contains has_config_map r.namespace || contains out r.namespace
        then out
        else out ++ (r.namespace ∷ []))
      refs

unfoldable pub unpaired_namespaces : List Ref → List Ref → List Str
unfolding unpaired_loop namespaces_of
unpaired_namespaces config_maps deployments =
    sort (unpaired_loop (namespaces_of config_maps) [] deployments)
