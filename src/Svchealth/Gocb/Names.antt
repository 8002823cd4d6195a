-- ===== src/Svchealth/Gocb/Names.antt =====
-- Hosts and service names that the prober reports (pkg/svchealth/prober_gocb.go).
use couchbase_health_observe.Prelude.{
  true, false, ◌||◌, ◌≡◌, refl, List, [], ◌∷◌, ◌++◌, Option, none, some, Str, bytes, str_eq,
  str_eq_iff, arith, all_of,
}
use couchbase_health_observe.Prelude.Dict.{contains}
use couchbase_health_observe.Prelude.Strings.{strip_prefix, cut, has_byte}
use couchbase_health_observe.Prelude.Strings.Cuts.{
  cut-append, cut-none, cut_last-append, cut_last-none,
}
use couchbase_health_observe.Svchealth.Types.{Probe, down}
use couchbase_health_observe.Svchealth.Compute.{compute}
use couchbase_health_observe.Svchealth.Compute.Aggregate.{observed}
use couchbase_health_observe.Svchealth.Compute.Verdict.{healthy, compute-status}
use couchbase_health_observe.Svchealth.Gocb.{
  ServiceType, key_value, query, search_service, analytics, management, unnamed, EndpointReport,
  PingResult, service_name, host_only, map_endpoints, map_reports, probe,
}

scheme_free :
    (host port : Str)
    → has_byte b':' host ≡ false
    → has_byte b':' port ≡ false
    → has_byte b'/' port ≡ false
    → cut (bytes "://") (host ++ (b':' ∷ port)) ≡ none
unfolding cut strip_prefix has_byte
scheme_free [] [] h p q = refl
scheme_free [] (c ∷ port) h p q = ground (arith, cut-none b':' (bytes "//") (c ∷ port))
scheme_free (c ∷ host) port h p q = ground (arith, scheme_free host port)

-- A node has one host, whether its endpoint is written with a scheme or without, with a port or
-- without: for a scheme, a host and a port in which no colon stands, and no slash in the port.
host_only-forms :
    (scheme host port : Str)
    → has_byte b':' scheme ≡ false
    → has_byte b':' host ≡ false
    → has_byte b':' port ≡ false
    → has_byte b'/' port ≡ false
    → (host_only (scheme ++ (bytes "://" ++ (host ++ (b':' ∷ port)))) ≡ host)
      × (host_only (scheme ++ (bytes "://" ++ host)) ≡ host)
      × (host_only (host ++ (b':' ∷ port)) ≡ host)
      × (host_only host ≡ host)
unfolding host_only
host_only-forms scheme host port s h p q = (
  rw (cut-append b':' (bytes "//") scheme (host ++ (b':' ∷ port)) s)
      (rw (cut_last-append b':' host port p)),
  rw (cut-append b':' (bytes "//") scheme host s) (rw (cut_last-none b':' host h)),
  rw (scheme_free host port h p q) (rw (cut_last-append b':' host port p)),
  rw (cut-none b':' (bytes "//") host h) (rw (cut_last-none b':' host h)),
)

-- The names under which the prober reports.
abbrev pub service_names : List Str
service_names =
    bytes "kv"
    ∷ bytes "query"
    ∷ bytes "search"
    ∷ bytes "analytics"
    ∷ bytes "management"
    ∷ bytes "other"
    ∷ []

observed-append :
    (svc : Str) (ps qs : List Probe)
    → observed svc (ps ++ qs) ≡ (observed svc ps || observed svc qs)
unfolding observed
observed-append svc [] qs = refl
observed-append svc (p ∷ ps) qs = ground (arith, observed-append svc ps qs)

observed-map_endpoints :
    (svc name : Str) (reports : List EndpointReport)
    → str_eq name svc ≡ false
    → observed svc (map_endpoints name reports) ≡ false
unfolding observed map_endpoints
observed-map_endpoints svc name [] e = refl
observed-map_endpoints svc name (r ∷ reports) e =
    ground (arith, observed-map_endpoints svc name reports)

service_name-known :
    (s : ServiceType) (svc : Str)
    → contains service_names svc ≡ false
    → str_eq (service_name s) svc ≡ false
unfolding service_name contains
service_name-known key_value svc u = ground arith
service_name-known query svc u = ground arith
service_name-known search_service svc u = ground arith
service_name-known analytics svc u = ground arith
service_name-known management svc u = ground arith
service_name-known (unnamed n) svc u = ground arith

observed-map_reports :
    (svc : Str) (pr : PingResult)
    → contains service_names svc ≡ false
    → observed svc (map_reports pr) ≡ false
unfolding map_reports observed
observed-map_reports svc [] u = refl
observed-map_reports svc ((s, reports) ∷ pr) u = ground (
  arith,
  observed-append svc (map_endpoints (service_name s) reports) (map_reports pr),
  observed-map_endpoints svc (service_name s) reports,
  service_name-known s svc u,
  observed-map_reports svc pr u,
)

observed-probe :
    (svc : Str) (bucket : Option (Option PingResult)) (cluster : Option PingResult)
    → contains service_names svc ≡ false
    → observed svc (probe bucket cluster) ≡ false
unfolding probe observed
observed-probe svc none none u = refl
observed-probe svc none (some c) u = observed-map_reports svc c u
observed-probe svc (some none) none u = refl
observed-probe svc (some none) (some c) u = observed-map_reports svc c u
observed-probe svc (some (some b)) none u =
    ground (arith, observed-append svc (map_reports b) [], observed-map_reports svc b u)
observed-probe svc (some (some b)) (some c) u = ground (
  arith,
  observed-append svc (map_reports b) (map_reports c),
  observed-map_reports svc b u,
  observed-map_reports svc c u,
)

all_of-contains :
    (probes : List Probe) (critical : List Str) (svc : Str)
    → contains critical svc ≡ true
    → observed svc probes ≡ false
    → all_of (healthy probes) critical ≡ false
unfolding healthy contains
all_of-contains probes [] svc c o = cc
all_of-contains probes (d ∷ critical) svc c o =
    ground (arith, str_eq_iff d svc, all_of-contains probes critical svc)

-- A critical service whose name is none of those that the prober reports, such as one spelled with
-- a blank in front, makes the report DOWN whatever the two pings answered.
unknown_critical-down :
    (bucket : Option (Option PingResult)) (cluster : Option PingResult) (critical : List Str)
    (svc checked_at : Str)
    → contains critical svc ≡ true
    → contains service_names svc ≡ false
    → (compute (probe bucket cluster) critical checked_at).status ≡ down
unknown_critical-down bucket cluster critical svc checked_at c u = ground (
  arith,
  compute-status (probe bucket cluster) critical checked_at,
  all_of-contains (probe bucket cluster) critical svc,
  observed-probe svc bucket cluster u,
)
