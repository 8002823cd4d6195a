-- ===== src/Svchealth/Gocb.antt =====
-- The prober over the Couchbase SDK (pkg/svchealth/prober_gocb.go). The two pings are the SDK's:
-- their results are arguments, and a failed ping is `none`. A map of endpoint reports is a list in
-- the order in which the range over it comes upon the services.
pub mod Names
use couchbase_health_observe.Prelude.{ℕ, Bool, List, [], ◌∷◌, ◌++◌, Option, none, some, Str, bytes}
use couchbase_health_observe.Prelude.Strings.{cut, cut_last}
use couchbase_health_observe.Svchealth.Types.{Probe}

-- The SDK's service types that the source names, and any other.
pub data ServiceType : Type 0 where
  key_value query search_service analytics management : ServiceType
  unnamed : ℕ → ServiceType

-- What the source reads of an endpoint's report: its address, and whether its state is Ok.
pub record EndpointReport : Type 0 where
  pub remote : Str
  pub state_ok : Bool

abbrev pub PingResult : Type 0
PingResult = List (ServiceType × List EndpointReport)

unfoldable pub service_name : ServiceType → Str
service_name key_value = bytes "kv"
service_name query = bytes "query"
service_name search_service = bytes "search"
service_name analytics = bytes "analytics"
service_name management = bytes "management"
service_name (unnamed n) = bytes "other"

abbrev pub after_scheme : Option (Str × Str) → Str → Str
after_scheme none whole = whole
after_scheme (some (before, after)) whole = after

abbrev pub before_port : Option (Str × Str) → Str → Str
before_port none whole = whole
before_port (some (before, after)) whole = before

unfoldable pub host_only : Str → Str
unfolding cut cut_last
host_only hostport =
    let rest = after_scheme (cut (bytes "://") hostport) hostport in
    before_port (cut_last b':' rest) rest

unfoldable pub map_endpoints : Str → List EndpointReport → List Probe
map_endpoints name [] = []
map_endpoints name (r ∷ reports) =
    record { service = name; host = host_only r.remote; ok = r.state_ok }
    ∷ map_endpoints name reports

unfoldable pub map_reports : PingResult → List Probe
unfolding map_endpoints service_name
map_reports [] = []
map_reports ((svc, reports) ∷ services) =
    map_endpoints (service_name svc) reports ++ map_reports services

abbrev pub probes_of_ping : Option PingResult → List Probe
probes_of_ping none = []
probes_of_ping (some pr) = map_reports pr

-- `Probe`: the bucket's ping, where there is a bucket, then the cluster's. The error is always nil.
unfoldable pub probe : Option (Option PingResult) → Option PingResult → List Probe
probe none cluster_ping = probes_of_ping cluster_ping
probe (some bucket_ping) cluster_ping = probes_of_ping bucket_ping ++ probes_of_ping cluster_ping
