-- ===== src/Actuator/Refs/Pairing.antt =====
-- Which namespaces are reported as unpaired (pkg/actuator/refs.go).
use couchbase_health_observe.Prelude.{
  false, not, ◌&&◌, ◌||◌, ◌≡◌, refl, List, [], ◌∷◌, ◌++◌, Str, str_eq_iff, arith, Bool-cases, inl,
  inr,
}
use couchbase_health_observe.Prelude.Dict.{contains}
use couchbase_health_observe.Prelude.Sort.{contains-sort}
use couchbase_health_observe.Prelude.Ascending.{Distinct, Ascending, sort-Ascending}
use couchbase_health_observe.Actuator.Types.{Ref}
use couchbase_health_observe.Actuator.Refs.{namespaces_of, unpaired_loop, unpaired_namespaces}

contains-append :
    (ss ts : List Str) (k : Str) → contains (ss ++ ts) k ≡ (contains ss k || contains ts k)
unfolding contains
contains-append [] ts k = refl
contains-append (s ∷ ss) ts k = ground (arith, contains-append ss ts k)

append-Distinct :
    (ss : List Str) (k : Str) → contains ss k ≡ false → Distinct ss → Distinct (ss ++ (k ∷ []))
unfolding contains
append-Distinct [] k c d = (refl, tt)
append-Distinct (s ∷ ss) k c d = (
  ground (arith, contains-append ss (k ∷ []) s, str_eq_iff s k, str_eq_iff k s),
  append-Distinct ss k (ground arith) d.1,
)

contains-unpaired_loop :
    (paired out : List Str) (refs : List Ref) (ns : Str)
    → contains (unpaired_loop paired out refs) ns
      ≡ (contains out ns || (contains (namespaces_of refs) ns && not (contains paired ns)))
unfolding contains unpaired_loop namespaces_of
contains-unpaired_loop paired out [] ns = ground arith
contains-unpaired_loop paired out (r ∷ refs) ns =
    elim (Bool-cases (contains paired r.namespace || contains out r.namespace)) [
      | inl skipped ↦
          rw skipped
            (ground (arith, contains-unpaired_loop paired out refs ns, str_eq_iff r.namespace ns))
      | inr added ↦ rw added (
          ground (
            arith,
            contains-unpaired_loop paired (out ++ (r.namespace ∷ [])) refs ns,
            contains-append out (r.namespace ∷ []) ns,
            str_eq_iff r.namespace ns,
          ))
    ]

unpaired_loop-Distinct :
    (paired out : List Str) (refs : List Ref)
    → Distinct out
    → Distinct (unpaired_loop paired out refs)
unfolding unpaired_loop
unpaired_loop-Distinct paired out [] d = d
unpaired_loop-Distinct paired out (r ∷ refs) d =
    elim (Bool-cases (contains paired r.namespace || contains out r.namespace)) [
      | inl skipped ↦ rw skipped (unpaired_loop-Distinct paired out refs d)
      | inr added ↦ rw added (
          unpaired_loop-Distinct paired (out ++ (r.namespace ∷ [])) refs
            (append-Distinct out r.namespace (ground arith) d))
    ]

-- A namespace is reported exactly if it holds a Deployment target and no ConfigMap target, and the
-- report is strictly ascending, so that it names each once.
unpaired_namespaces-exact :
    (config_maps deployments : List Ref)
    → Ascending (unpaired_namespaces config_maps deployments)
      × ((ns : Str)
          → contains (unpaired_namespaces config_maps deployments) ns ≡ (
              contains (namespaces_of deployments) ns
              && not (contains (namespaces_of config_maps) ns)))
unfolding unpaired_namespaces contains
unpaired_namespaces-exact config_maps deployments = (
  sort-Ascending _ (unpaired_loop-Distinct (namespaces_of config_maps) [] deployments tt),
  λ ns. ground (
    arith,
    contains-sort (unpaired_loop (namespaces_of config_maps) [] deployments) ns,
    contains-unpaired_loop (namespaces_of config_maps) [] deployments ns,
  ),
)
