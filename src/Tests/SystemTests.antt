-- ===== src/Tests/SystemTests.antt =====
-- An outage that the whole system ends: loop, actuator and cluster (cmd/svchealthcheck, pkg/actuator).
use couchbase_health_observe.Prelude.{
  ℕ, Bool, true, false, ◌≡◌, ◌⊎◌, refl, List, [], ◌∷◌, none, Str, bytes, is_nil, str_eq, arith,
}
use couchbase_health_observe.Prelude.Int.{pos, ◌-ℤ◌}
use couchbase_health_observe.Prelude.Dict.{lookup, insert, keys, contains, map_values}
use couchbase_health_observe.Prelude.Sort.{sort}
use couchbase_health_observe.Svchealth.Types.{Probe, is_down}
use couchbase_health_observe.Svchealth.Compute.{compute}
use couchbase_health_observe.Failover.Machine.{observe, new, mark_switched}
use couchbase_health_observe.Failover.Machine.Clock.{sub_time}
use couchbase_health_observe.Failover.History.{down_since, has_mark}
use couchbase_health_observe.Failover.History.Delay.{HealthyLongAgo}
use couchbase_health_observe.Actuator.Types.{Ref, has_ref, ref_eq}
use couchbase_health_observe.Actuator.Kube.{get, put}
use couchbase_health_observe.Actuator.Kube.Memory.{Cluster, find, memory, memory-IsLawful}
use couchbase_health_observe.Actuator.Switch.{
  switch, patch_config_maps, patch_one, roll_deployments, roll_one,
}
use couchbase_health_observe.Actuator.Switch.Reads.{stamped}
use couchbase_health_observe.Webhook.{post, deliver, responded, notify}
use couchbase_health_observe.Observer.Switching.{Counters, run_switch}
use couchbase_health_observe.Observer.Reconcile.{secondary_ready}
use couchbase_health_observe.Observer.Loop.State.{LoopState, secondary}
use couchbase_health_observe.Observer.Loop.{
  tick_report, secondary_status, attempts, tick, start, watch,
}
use couchbase_health_observe.Observer.Loop.Runs.{history, run}
use couchbase_health_observe.Observer.System.{
  SystemConfig, Surroundings, input_of, event_of, calls_actuator, system_tick, system_run,
  actuator_config,
}
use couchbase_health_observe.Observer.System.Ticks.{AllSwitched, AllStamped, state, cluster, inputs}
use couchbase_health_observe.Observer.System.Delivered.{run-delivered, run-leaves}
use couchbase_health_observe.Observer.System.Notified.{Notified, run-Notified}
use couchbase_health_observe.Observer.System.Frozen.{run-frozen}
use couchbase_health_observe.Observer.System.Recovery.{Restarted, run-recovers}
use couchbase_health_observe.Tests.ActuatorTests as Kubernetes

abbrev probe_of : Str → Bool → Probe
probe_of host ok = record { service = bytes "kv"; host = host; ok = ok }

abbrev system : SystemConfig
system = record {
  loop = record {
    actuators = record { k8s = true; webhook = false };
    conn = bytes "P";
    secondary = bytes "S";
    critical = bytes "kv" ∷ [];
    dry_run = false;
    config_maps = (Kubernetes.config false).config_maps;
    deployments = (Kubernetes.config false).deployments;
    primary_region = bytes "p";
    secondary_region = bytes "s";
    secondary_prober = true;
    machine = record { failover_delay = pos 10; already_switched = false };
  };
  config_key = bytes "k";
  http = record { retries = pos 0; dry_run = false };
}

abbrev pub at_time : ℕ → Surroundings
at_time t = record {
  primary_probes = probe_of (bytes "p1") false ∷ [];
  secondary_probes = probe_of (bytes "s1") true ∷ [];
  checked_at = [];
  secondary_checked_at = [];
  observed_at = pos t;
  now = pos t;
  stamp = bytes "now";
  webhook = record { transport = λ n. responded 200; sent_at = λ n. []; done = λ n. none };
}

abbrev pub counters : Counters
counters = record {
  failover_errors = 0;
  failover_total = 0;
  webhook_ok = 0;
  webhook_error = 0;
  last_actuation_success = none;
  webhook_last_success = none;
}

abbrev before : List Surroundings
before = at_time 0 ∷ []

abbrev untouched : Cluster
untouched = Kubernetes.cluster []

-- Its line names what the runs below compute through.
unfoldable pub after_outage : LoopState × Cluster
unfolding system_run system_tick run input_of event_of calls_actuator tick_report compute history
    tick start watch observe lookup insert keys contains map_values sort str_eq new sub_time ◌-ℤ◌
    attempts secondary_ready secondary_status run_switch down_since has_mark mark_switched inputs
    switch patch_config_maps patch_one roll_deployments roll_one find has_ref ref_eq get put notify
after_outage = system_run memory system counters untouched (at_time 10 ∷ before)

switched_over : (after_outage.0.machine.switched ≡ true) × (after_outage.0.prober ≡ secondary)
unfolding after_outage
switched_over = (refl, refl)

run-delivered_example :
    AllSwitched memory system (cluster memory system counters untouched (at_time 10 ∷ before))
    × ((false ≡ true)
        ⊎ AllStamped memory system (cluster memory system counters untouched (at_time 10 ∷ before)))
unfolding after_outage
run-delivered_example =
    run-delivered memory memory-IsLawful system counters untouched (at_time 10 ∷ before) refl refl
      (λ adopted. ground (arith, adopted)) refl

run-recovers_example :
    AllSwitched memory system (cluster memory system counters untouched (at_time 10 ∷ before))
    × AllStamped memory system (cluster memory system counters untouched (at_time 10 ∷ before))
    × ((state memory system counters untouched (at_time 10 ∷ before)).machine.switched ≡ true)
    × ((state memory system counters untouched (at_time 10 ∷ before)).prober ≡ secondary)
    × ((d : Ref)
        → has_ref system.loop.deployments d ≡ true
        → (stamped memory (actuator_config system) untouched d ≡ true)
          ⊎ Restarted memory memory-IsLawful system counters untouched d (at_time 10 ∷ before))
unfolding after_outage
run-recovers_example =
    run-recovers memory memory-IsLawful system counters untouched before (at_time 10) (pos 0) refl
      refl (omega arith) (omega arith) refl refl (omega arith) refl refl refl refl

run-leaves_example :
    let i =
      input_of memory system
        (at_time 10)
        (state memory system counters untouched before)
        untouched in
    (cluster memory system counters untouched (at_time 10 ∷ before) ≡ untouched)
    ⊎ ((is_down (tick_report system.loop (state memory system counters untouched before) i).status
          ≡ true)
        × ((state memory system counters untouched before).machine.switched ≡ false)
        × (is_nil (bytes "S") ≡ false)
        × (◌≡◌ {A = Bool} true true)
        × (secondary_ready (secondary_status system.loop i) ≡ true)
        × HealthyLongAgo
            (pos 10)
            i.observed_at
            (history system.loop counters (inputs memory system counters untouched before)))
unfolding after_outage
run-leaves_example =
    run-leaves memory memory-IsLawful system counters untouched before (at_time 10) (omega arith)
      (omega arith) (omega arith)

-- The same observer with the webhook as its only actuator.
abbrev hooked : SystemConfig
hooked = record system {
  loop = record (system.loop) { actuators = record { k8s = false; webhook = true } };
}

run-Notified_example : Notified memory hooked counters untouched (at_time 10 ∷ before)
unfolding after_outage post deliver
run-Notified_example =
    run-Notified memory hooked counters untouched (at_time 10 ∷ before) refl refl refl refl refl

abbrev afterwards : List Surroundings
afterwards = at_time 30 ∷ at_time 20 ∷ at_time 10 ∷ before

run-frozen_example :
    ((state memory system counters untouched afterwards).machine.switched ≡ true)
    × (cluster memory system counters untouched afterwards
        ≡ cluster memory system counters untouched (at_time 10 ∷ before))
unfolding after_outage
run-frozen_example =
    run-frozen memory system counters untouched (at_time 10 ∷ before) (at_time 30 ∷ at_time 20 ∷ [])
      refl
