-- ===== src/Tests/LoopTests.antt =====
-- An outage of the primary that is served in full, and then switched (cmd/svchealthcheck/main.go).
use couchbase_health_observe.Prelude.{
  ℕ, Bool, true, false, ◌||◌, ◌≡◌, refl, List, [], ◌∷◌, none, Str, bytes, str_eq, arith, is_nil,
  if◌then◌else◌,
}
use couchbase_health_observe.Prelude.Int.{pos, ◌-ℤ◌}
use couchbase_health_observe.Prelude.Dict.{lookup, insert, keys, contains, map_values}
use couchbase_health_observe.Prelude.Sort.{sort}
use couchbase_health_observe.Svchealth.Types.{Probe, is_down}
use couchbase_health_observe.Svchealth.Compute.{compute}
use couchbase_health_observe.Failover.Machine.{observe, new, mark_switched}
use couchbase_health_observe.Failover.Machine.Clock.{sub_time}
use couchbase_health_observe.Failover.History.{down_since, has_mark}
use couchbase_health_observe.Failover.History.Delay.{HealthyLongAgo}
use couchbase_health_observe.Observer.Switching.{Counters, answered, run_switch}
use couchbase_health_observe.Observer.Reconcile.{secondary_ready}
use couchbase_health_observe.Observer.Loop.State.{
  LoopConfig, TickInput, LoopState, primary, secondary,
}
use couchbase_health_observe.Observer.Loop.{
  tick_report, secondary_status, attempts, tick, start, region_of,
}
use couchbase_health_observe.Observer.Loop.Runs.{run, history}
use couchbase_health_observe.Observer.Serving.{route_of}
use couchbase_health_observe.Observer.Serving.Requests.{
  Request, serve, critical_reached, followed, serve-health,
}
use couchbase_health_observe.Observer.Loop.Metered.{IsMetered, run-IsMetered}
use couchbase_health_observe.Observer.Loop.Tally.{IsTallied, verdict}
use couchbase_health_observe.Observer.Loop.Safety.{attempt-patient, run-prober, run-switches}

abbrev probe_of : Str → Str → Bool → Probe
probe_of service host ok = record { service = service; host = host; ok = ok }

abbrev config : LoopConfig
config = record {
  actuators = record { k8s = true; webhook = false };
  conn = bytes "couchbase://a";
  secondary = bytes "couchbase://b";
  critical = bytes "kv" ∷ [];
  dry_run = false;
  config_maps = [];
  deployments = [];
  primary_region = bytes "a";
  secondary_region = bytes "b";
  secondary_prober = true;
  machine = record { failover_delay = pos 10; already_switched = false };
}

abbrev tick_at : ℕ → TickInput
tick_at t = record {
  primary_probes = probe_of (bytes "kv") (bytes "a1") false ∷ [];
  secondary_probes = probe_of (bytes "kv") (bytes "b1") true ∷ [];
  checked_at = [];
  secondary_checked_at = [];
  observed_at = pos t;
  now = pos t;
  act = answered true;
  notify_failed = false;
}

abbrev counters : Counters
counters = record {
  failover_errors = 0;
  failover_total = 0;
  webhook_ok = 0;
  webhook_error = 0;
  last_actuation_success = none;
  webhook_last_success = none;
}

abbrev before : List TickInput
before = tick_at 0 ∷ []

-- Its line names what the runs below compute through.
after_outage : LoopState
unfolding tick_report compute run history tick start observe lookup insert keys contains map_values
    sort str_eq new sub_time ◌-ℤ◌ attempts secondary_ready secondary_status run_switch down_since
    has_mark mark_switched
after_outage = run config counters (tick_at 10 ∷ before)

switched_over : (after_outage.prober ≡ secondary) × (after_outage.counters.failover_total ≡ 1)
unfolding after_outage
switched_over = (refl, refl)

attempt-patient_example :
    (is_down (tick_report config (run config counters before) (tick_at 10)).status ≡ true)
    × ((false || has_mark (history config counters before)) ≡ false)
    × (is_nil (bytes "couchbase://b") ≡ false)
    × (◌≡◌ {A = Bool} true true)
    × (secondary_ready (secondary_status config (tick_at 10)) ≡ true)
    × HealthyLongAgo (pos 10) (pos 10) (history config counters before)
unfolding after_outage
attempt-patient_example =
    attempt-patient config counters before (tick_at 10) (omega arith) (omega arith) (omega arith)
      refl

run-switches_example :
    ((run config counters (tick_at 10 ∷ before)).machine.switched ≡ true)
    × (◌≡◌ {A = Bool} false false → (run config counters (tick_at 10 ∷ before)).prober ≡ secondary)
unfolding after_outage
run-switches_example =
    run-switches config counters before (tick_at 10) (pos 0) (omega arith) (omega arith) refl refl
      (omega arith) refl refl refl refl

run-prober_example :
    ((run config counters (tick_at 10 ∷ before)).prober ≡ secondary)
    × ((run config counters (tick_at 10 ∷ before)).role
        ≡ (run config counters (tick_at 10 ∷ before)).prober)
    × ((run config counters (tick_at 10 ∷ before)).prober ≡ secondary → ◌≡◌ {A = Bool} true true)
unfolding after_outage
run-prober_example = run-prober config counters (tick_at 10 ∷ before)

run-IsMetered_example :
    IsMetered config counters (run config counters (tick_at 10 ∷ before))
    × IsTallied config counters (tick_at 10 ∷ before)
    × (lookup
          (region_of config (run config counters (tick_at 10 ∷ before)).role)
          (run config counters (tick_at 10 ∷ before)).metrics.couchbase_up
        ≡ verdict config counters (tick_at 10 ∷ before))
unfolding str_eq
run-IsMetered_example = run-IsMetered config counters (tick_at 10 ∷ before) refl

abbrev request : Request
request = record {
  path = bytes "/health/couchbase";
  probe = λ r. elim r [
    | primary ↦ ((tick_at 20).primary_probes, false)
    | secondary ↦ ((tick_at 20).secondary_probes, false)
  ];
  checked_at = [];
  now = pos 21;
  version_error = none;
}

serve-health_example : serve config counters (pos 30) (tick_at 10 ∷ before) request ≡ (
    if critical_reached config counters
      (pos 30)
      (request.probe (followed config counters (pos 30) (tick_at 10 ∷ before)))
    then 200
    else 503)
unfolding route_of str_eq
serve-health_example = serve-health config counters (pos 30) (tick_at 10 ∷ before) request refl
