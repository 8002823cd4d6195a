-- ===== src/Observer/Serving/Requests.antt =====
-- Requests to the endpoints while the poll loop runs (cmd/svchealthcheck/main.go). A request is
-- served between two ticks: what it shares with the loop is read atomically.
use couchbase_health_observe.Prelude.{
  ℕ, Bool, not, ◌&&◌, ◌||◌, ◌≡◌, List, Option, Str, map, all_of, is_nil, if◌then◌else◌, ap, ◌∙◌,
}
use couchbase_health_observe.Prelude.Int.{ℤ}
use couchbase_health_observe.Svchealth.Types.{Probe}
use couchbase_health_observe.Svchealth.Compute.Verdict.{healthy}
use couchbase_health_observe.Svchealth.Handler.{serve_http, serve_http-code}
use couchbase_health_observe.Failover.History.{has_mark}
use couchbase_health_observe.Observer.Switching.{Counters}
use couchbase_health_observe.Observer.Loop.State.{Role, primary, secondary, LoopConfig, TickInput}
use couchbase_health_observe.Observer.Loop.Runs.{run, history}
use couchbase_health_observe.Observer.Loop.Safety.{run-prober}
use couchbase_health_observe.Observer.Serving.{
  Route, health_couchbase, healthz, readyz, metrics, not_found, route_of, serve_healthz,
  serve_readyz,
}

-- What comes with a request: its path, what each cluster would answer to a probe and whether that
-- fails, the times, and what the version call of the API answers.
pub record Request : Type 0 where
  pub path : Str
  pub probe : Role → List Probe × Bool
  pub checked_at : Str
  pub now : ℤ
  pub version_error : Option Str

module _ (cfg : LoopConfig) (counters : Counters) (max_age : ℤ) where
  -- The status code of the answer of a handler, after the ticks of a list, the newest first.
  unfoldable pub answer : List TickInput → Request → Route → ℕ
  unfolding serve_healthz serve_readyz
  answer is q health_couchbase =
      (serve_http (q.probe (run cfg counters is).prober) cfg.critical q.checked_at).code
  answer is q healthz = serve_healthz cfg.actuators (map (λ i. i.now) is) max_age q.now
  answer is q readyz = (serve_readyz cfg.actuators (map (λ i. i.now) is) q.version_error).0
  answer is q metrics = 200
  answer is q not_found = 404

  unfoldable pub serve : List TickInput → Request → ℕ
  unfolding route_of answer
  serve is q = answer is q (route_of q.path)

  abbrev pub critical_reached : List Probe × Bool → Bool
  critical_reached (probes, failed) =
      if failed then is_nil cfg.critical else all_of (healthy probes) cfg.critical

  -- The cluster that is active.
  abbrev pub followed : List TickInput → Role
  followed is =
      if (cfg.machine.already_switched && cfg.secondary_prober)
        || (has_mark (history cfg counters is) && not cfg.dry_run)
      then secondary
      else primary

  -- After any run of the loop, a request to /health/couchbase is answered by the critical services of
  -- the cluster that the switch made the active one: the secondary, once a switch was recorded outside
  -- a dry run, or was adopted with a connection to it, and the primary before. It answers 200 where
  -- each of them is observed with no failing endpoint, and 503 otherwise.
  pub serve-health :
      (is : List TickInput) (q : Request)
      → route_of q.path ≡ health_couchbase
      → serve is q ≡ (if critical_reached (q.probe (followed is)) then 200 else 503)
  unfolding serve answer
  serve-health is q path =
      let (target, label, reachable) = run-prober cfg counters is in
      let (probes, failed) = q.probe (followed is) in
      ap (answer is q) path
      ∙ ap (λ r. (serve_http (q.probe r) cfg.critical q.checked_at).code) target
      ∙ serve_http-code probes failed cfg.critical q.checked_at
