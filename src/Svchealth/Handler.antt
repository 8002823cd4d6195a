-- ===== src/Svchealth/Handler.antt =====
-- The active prober and the handler of /health/couchbase (pkg/svchealth/active.go and api.go).
use couchbase_health_observe.Prelude.{
  ℕ, Bool, true, false, ◌≡◌, refl, List, [], ◌∷◌, Str, all_of, is_nil, if◌then◌else◌, arith,
}
use couchbase_health_observe.Svchealth.Types.{is_down, Probe, Report}
use couchbase_health_observe.Svchealth.Compute.{compute}
use couchbase_health_observe.Svchealth.Compute.Verdict.{healthy, compute-status}
use couchbase_health_observe.Svchealth.Compute.Aggregate.{observed}

-- The shared pointer to the prober in use. `Probe` loads it, `Set` stores it, both atomically.
pub record ActiveProber (Prober : Type 0) : Type 0 where
  pub p : Prober

unfoldable pub new_active_prober : {Prober : Type 0} → Prober → ActiveProber Prober
new_active_prober p = record { p = p }

unfoldable pub set : {Prober : Type 0} → ActiveProber Prober → Prober → ActiveProber Prober
set a p = record { p = p }

unfoldable pub active_probe : {Prober A : Type 0} → (Prober → A) → ActiveProber Prober → A
active_probe run a = run a.p

-- What a handler writes: the status code, the content type and the encoded report.
pub record Response : Type 0 where
  pub code : ℕ
  pub json : Bool
  pub body : Report

-- The probes come with whether the prober returned an error.
unfoldable pub serve_http : List Probe × Bool → List Str → Str → Response
serve_http (probes, failed) critical now =
    let report = compute (if failed then [] else probes) critical now in
    record { code = if is_down report.status then 503 else 200; json = true; body = report }

all_of-nothing : (critical : List Str) → all_of (healthy []) critical ≡ is_nil critical
unfolding healthy observed
all_of-nothing [] = refl
all_of-nothing (svc ∷ critical) = refl

-- The endpoint answers 200 exactly where every critical service was observed with no failing
-- endpoint, and 503 otherwise. After a failed probe it answers 200 only if nothing is critical.
pub serve_http-code :
    (probes : List Probe) (failed : Bool) (critical : List Str) (now : Str)
    → (serve_http (probes, failed) critical now).code ≡ (
        if (if failed then is_nil critical else all_of (healthy probes) critical) then 200 else 503)
unfolding serve_http
serve_http-code probes true critical now =
    ground (arith, compute-status [] critical now, all_of-nothing critical)
serve_http-code probes false critical now = ground (arith, compute-status probes critical now)
