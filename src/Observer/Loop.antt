-- ===== src/Observer/Loop.antt =====
-- The poll loop of `main` (cmd/svchealthcheck/main.go): startup of its state, and one tick. What
-- the probers, the clock and the two actuation paths answer during a tick is its input.
pub mod State
pub mod Latch
pub mod Runs
pub mod Safety
pub mod Tally
pub mod Metered
use couchbase_health_observe.Prelude.{
  ℕ, ◌+◌, ◌<◌, Bool, true, false, not, ◌&&◌, ◌||◌, List, [], ◌∷◌, ◌++◌, Option, none, some, Str,
  is_nil, is_none, bytes, join, if◌then◌else◌, length, map, ltb,
}
use couchbase_health_observe.Prelude.Int.{ℤ}
use couchbase_health_observe.Prelude.Dict.{Dict, insert}
use couchbase_health_observe.Prelude.Sort.{sort}
use couchbase_health_observe.Prelude.Strings.Space.{fields}
use couchbase_health_observe.Svchealth.Types.{
  Status, up, degraded, down, is_down, is_up, Probe, ServiceHealth, Report,
}
use couchbase_health_observe.Svchealth.Compute.{compute}
use couchbase_health_observe.Svchealth.Node.{
  by_node, node_summary, render_nodes, host_set, diff_hosts,
}
use couchbase_health_observe.Failover.Machine.{
  Machine, Result, new, observe, mark_switched, down_seconds, switched,
}
use couchbase_health_observe.Actuator.Types.{Ref}
use couchbase_health_observe.Observer.Actuators.{Actuators}
use couchbase_health_observe.Observer.Switching.{
  Endpoint, Event, new_switch_event, SwitchAnswer, Counters, Progress, run_switch,
}
use couchbase_health_observe.Observer.Reconcile.{secondary_ready}
use State.{
  Role, primary, secondary, LoopConfig, TickInput, Metrics, LoopLine, LoopState, remove,
  is_same_status, cluster_map, host_removed, host_added, failover_countdown_start, health,
  switch_skipped, switch_held, switch_required, switching, probe_target, probe_target_held,
  probe_target_unavailable, cluster_detail, cluster_nodes, primary_name, secondary_name,
}

-- The closure `followSecondary`.
unfoldable pub follow_secondary : LoopState → LoopState
follow_secondary s = record s {
  role = secondary;
  prober = secondary;
  last_hosts = none;
  lines = s.lines ++ (probe_target ∷ []);
}

-- The state when the loop starts.
unfoldable pub start : LoopConfig → Counters → LoopState
unfolding follow_secondary
start cfg counters =
    let s : LoopState = record {
      machine = new cfg.machine;
      role = primary;
      prober = primary;
      last_status = none;
      last_hosts = none;
      metrics = record {
        couchbase_up = [];
        service_up = [];
        active_region =
            if cfg.machine.already_switched
            then (cfg.secondary_region, true) ∷ []
            else (cfg.primary_region, true) ∷ [];
        secondary_up = none;
        sustained_down = none;
        loop_last_tick = none;
      };
      counters = counters;
      first_eval = false;
      lines = [];
      sent = [];
    } in
    if cfg.machine.already_switched
    then if cfg.secondary_prober
      then follow_secondary s
      else record s { lines = s.lines ++ (probe_target_unavailable ∷ []) }
    else s

abbrev pub probed : LoopState → TickInput → List Probe
probed s i = elim s.prober [ primary ↦ i.primary_probes | secondary ↦ i.secondary_probes ]

unfoldable pub tick_report : LoopConfig → LoopState → TickInput → Report
tick_report cfg s i = compute (probed s i) cfg.critical i.checked_at

abbrev pub region_of : LoopConfig → Role → Str
region_of cfg primary = cfg.primary_region
region_of cfg secondary = cfg.secondary_region

unfoldable pub set_service_up : Dict ServiceHealth → Dict Bool → Dict Bool
set_service_up [] gauges = gauges
set_service_up ((svc, sh) ∷ services) gauges =
    set_service_up services (insert svc (is_up sh.status) gauges)

-- The gauges of one tick, up to the machine's.
unfoldable pub set_gauges : LoopConfig → Role → TickInput → Report → Metrics → Metrics
unfolding set_service_up
set_gauges cfg role i rep m = record m {
  loop_last_tick = some i.now;
  couchbase_up = insert (region_of cfg role) (not (is_down rep.status)) m.couchbase_up;
  service_up = set_service_up rep.services m.service_up;
}

unfoldable pub sorted_hosts : List Str → Str
sorted_hosts set = join (bytes " ") (sort set)

-- The lines about the cluster map.
unfoldable pub map_lines : Role → Option (List Str) → List Str → List LoopLine
unfolding sorted_hosts
map_lines role none cur = cluster_map (sorted_hosts cur) ∷ []
map_lines role (some last) cur =
    let (added, removed) = diff_hosts last cur in
    map (λ h. host_removed h role) removed
    ++ (map (λ h. host_added h role) added
        ++ (if is_nil added && is_nil removed then [] else cluster_map (sorted_hosts cur) ∷ []))

-- The first part of a tick, up to the health line: probe, compute, observe, and tell.
unfoldable pub watch : LoopConfig → LoopState → TickInput → LoopState × Result
unfolding map_lines sorted_hosts set_gauges
watch cfg s i =
    let probe_set = probed s i in
    let rep = tick_report cfg s i in
    let (m, res) = observe s.machine i.observed_at rep.status in
    let (healthy, total) = node_summary (by_node probe_set) in
    let cur = host_set probe_set in
    let changed = not (is_same_status s.last_status rep.status) in
    let countdown = is_down rep.status && (changed && not (switched m)) in
    (
      record s {
        machine = m;
        first_eval = true;
        metrics = record (set_gauges cfg s.role i rep s.metrics) {
          sustained_down = some (down_seconds m i.now);
        };
        last_hosts = some cur;
        last_status = some rep.status;
        lines =
            s.lines
            ++ ((cluster_detail s.role healthy total
                  ∷ cluster_nodes s.role (render_nodes (by_node probe_set))
                  ∷ map_lines s.role s.last_hosts cur)
                ++ ((if countdown then failover_countdown_start ∷ [] else [])
                    ++ (health changed rep.status rep.reason res.switch_required (switched m) s.role
                        ∷ [])));
      },
      res,
    )

-- The status of the secondary at a tick that asks for the switch.
unfoldable pub secondary_status : LoopConfig → TickInput → Status
secondary_status cfg i =
    if cfg.secondary_prober
    then (compute i.secondary_probes cfg.critical i.secondary_checked_at).status
    else down

unfoldable pub switch_event : LoopConfig → LoopState → TickInput → Report → Event
switch_event cfg s i rep =
    new_switch_event cfg.actuators rep.reason (down_seconds s.machine i.now)
      (record {
        role = primary_name;
        conn = cfg.conn;
        label = cfg.primary_region;
        nodes = fields (sorted_hosts (host_set (probed s i)));
        status = none;
      })
      (record {
        role = secondary_name;
        conn = cfg.secondary;
        label = cfg.secondary_region;
        nodes = [];
        status = some (secondary_status cfg i);
      })
      cfg.config_maps cfg.deployments cfg.dry_run

-- After a switch that may latch.
unfoldable pub latched : LoopConfig → LoopState → LoopState
unfolding follow_secondary
latched cfg s =
    let s' = record s {
      machine = mark_switched s.machine;
      metrics = record (s.metrics) {
        active_region =
            insert cfg.secondary_region true
              (insert cfg.primary_region false s.metrics.active_region);
      };
    } in
    if cfg.dry_run
    then record s' { lines = s'.lines ++ (probe_target_held ∷ []) }
    else follow_secondary (record s' {
      metrics = record (s'.metrics) {
        couchbase_up = remove cfg.primary_region s'.metrics.couchbase_up;
      };
    })

-- What `runSwitch` is given of the two paths: an actuator that is off is nil.
abbrev pub act_answer : LoopConfig → TickInput → Option SwitchAnswer
act_answer cfg i = if cfg.actuators.k8s then some i.act else none

abbrev pub notify_answer : LoopConfig → TickInput → Option Bool
notify_answer cfg i = if cfg.actuators.webhook then some i.notify_failed else none

-- The switch itself, and what follows it; `sent` gains the event that the notifier is handed.
unfoldable pub perform : LoopConfig → LoopState → TickInput → LoopState
unfolding latched switch_event
perform cfg s i =
    let p = run_switch (act_answer cfg i) (notify_answer cfg i) i.now s.counters in
    let told = record s {
      counters = p.counters;
      lines = s.lines ++ (switch_required ∷ map switching p.lines);
      sent =
          if cfg.actuators.webhook
          then s.sent ++ (switch_event cfg s i (tick_report cfg s i) ∷ [])
          else s.sent;
    } in
    if p.latch then latched cfg told else told

-- The tests before the switch: a secondary must be configured, and must not be DOWN.
unfoldable pub attempts : LoopConfig → TickInput → Result → Bool
unfolding secondary_status
attempts cfg i res =
    res.switch_required && (not (is_nil cfg.secondary) && secondary_ready (secondary_status cfg i))

-- The last part of a tick.
unfoldable pub respond : LoopConfig → LoopState → TickInput → Result → LoopState
unfolding perform secondary_status
respond cfg s i res =
    let ready = secondary_ready (secondary_status cfg i) in
    let gauged = record s { metrics = record (s.metrics) { secondary_up = some ready } } in
    if not res.switch_required
    then s
    else if is_nil cfg.secondary
    then record s { lines = s.lines ++ (switch_skipped ∷ []) }
    else if not ready
    then record gauged { lines = s.lines ++ (switch_held (secondary_status cfg i) ∷ []) }
    else perform cfg gauged i

unfoldable pub tick : LoopConfig → LoopState → TickInput → LoopState
unfolding watch respond
tick cfg s i = let (s', res) = watch cfg s i in respond cfg s' i res
