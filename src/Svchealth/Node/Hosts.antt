-- ===== src/Svchealth/Node/Hosts.antt =====
-- The cluster map from one round to the next (pkg/svchealth/node.go).
use couchbase_health_observe.Prelude.{
  Bool, false, not, ◌&&◌, ◌||◌, ◌≡◌, refl, List, [], ◌∷◌, Str, is_nil, str_eq, str_eq_iff, arith,
  Bool-cases, inl, inr,
}
use couchbase_health_observe.Prelude.Dict.{contains}
use couchbase_health_observe.Prelude.Sort.{sort, contains-sort}
use couchbase_health_observe.Prelude.Ascending.{Distinct, Ascending, sort-Ascending}
use couchbase_health_observe.Svchealth.Types.{Probe}
use couchbase_health_observe.Svchealth.Node.{host_set_from, host_set, missing_from, diff_hosts}

-- Some probe of the round came from the host; the empty host is no host.
unfoldable pub seen : Str → List Probe → Bool
seen h [] = false
seen h (pr ∷ probes) = (not (is_nil pr.host) && str_eq pr.host h) || seen h probes

contains-host_set_from :
    (h : Str) (set : List Str) (probes : List Probe)
    → contains (host_set_from set probes) h ≡ (contains set h || seen h probes)
unfolding host_set_from seen contains
contains-host_set_from h set [] = ground arith
contains-host_set_from h set (pr ∷ probes) =
    elim (Bool-cases (is_nil pr.host || contains set pr.host)) [
      | inl skipped ↦
          rw skipped (ground (arith, contains-host_set_from h set probes, str_eq_iff pr.host h))
      | inr new_host ↦ rw new_host (ground (arith, contains-host_set_from h (pr.host ∷ set) probes))
    ]

pub contains-host_set :
    (h : Str) (probes : List Probe) → contains (host_set probes) h ≡ seen h probes
unfolding host_set contains
contains-host_set h probes = contains-host_set_from h [] probes

host_set_from-Distinct :
    (set : List Str) (probes : List Probe) → Distinct set → Distinct (host_set_from set probes)
unfolding host_set_from
host_set_from-Distinct set [] d = d
host_set_from-Distinct set (pr ∷ probes) d =
    elim (Bool-cases (is_nil pr.host || contains set pr.host)) [
      | inl skipped ↦ rw skipped (host_set_from-Distinct set probes d)
      | inr new_host ↦ rw new_host (host_set_from-Distinct (pr.host ∷ set) probes (ground arith, d))
    ]

pub host_set-Distinct : (probes : List Probe) → Distinct (host_set probes)
unfolding host_set
host_set-Distinct probes = host_set_from-Distinct [] probes tt

contains-missing_from :
    (h : Str) (set hs : List Str)
    → contains (missing_from set hs) h ≡ (contains hs h && not (contains set h))
unfolding contains missing_from
contains-missing_from h set [] = refl
contains-missing_from h set (i ∷ hs) =
    ground (arith, str_eq_iff i h, contains-missing_from h set hs)

missing_from-Distinct : (set hs : List Str) → Distinct hs → Distinct (missing_from set hs)
unfolding contains missing_from
missing_from-Distinct set [] d = tt
missing_from-Distinct set (i ∷ hs) d =
    ground (arith, contains-missing_from i set hs, missing_from-Distinct set hs d.1)

-- Between two rounds of probes a host is reported as added exactly if the later round saw it and
-- the earlier did not, and as removed exactly if the earlier saw it and the later did not. Both
-- lists are strictly ascending, so no host is reported twice.
diff_hosts-rounds :
    (before after : List Probe)
    → let (added, removed) = diff_hosts (host_set before) (host_set after) in
      ((h : Str) → contains added h ≡ (seen h after && not (seen h before)))
      × ((h : Str) → contains removed h ≡ (seen h before && not (seen h after)))
      × Ascending added
      × Ascending removed
unfolding diff_hosts
diff_hosts-rounds before after = (
  λ h. one_way h before after,
  λ h. one_way h after before,
  ascends before after,
  ascends after before,
)
  where
    one_way :
        (h : Str) (ps qs : List Probe)
        → contains (sort (missing_from (host_set ps) (host_set qs))) h
          ≡ (seen h qs && not (seen h ps))
    one_way h ps qs = ground (
      arith,
      contains-sort (missing_from (host_set ps) (host_set qs)) h,
      contains-missing_from h (host_set ps) (host_set qs),
      contains-host_set h ps,
      contains-host_set h qs,
    )

    ascends : (ps qs : List Probe) → Ascending (sort (missing_from (host_set ps) (host_set qs)))
    ascends ps qs =
        sort-Ascending _ (missing_from-Distinct (host_set ps) (host_set qs) (host_set-Distinct qs))
