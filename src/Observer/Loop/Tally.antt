-- ===== src/Observer/Loop/Tally.antt =====
-- What the counters and the gauge of the probed region show after a run of the poll loop, tick by
-- tick (cmd/svchealthcheck/main.go, cmd/svchealthcheck/switch.go, pkg/metrics/metrics.go).
use couchbase_health_observe.Prelude.{
  ℕ, ◌+◌, Bool, true, false, not, ◌&&◌, ◌≡◌, List, [], ◌∷◌, Option, none, some, Str, str_eq,
  str_eq_iff, str_eq_refl, if◌then◌else◌, arith,
}
use couchbase_health_observe.Prelude.Dict.{Dict, lookup, insert, lookup-insert}
use couchbase_health_observe.Svchealth.Types.{is_down}
use couchbase_health_observe.Failover.Machine.{observe, open_window}
use couchbase_health_observe.Observer.Switching.{
  SwitchAnswer, errored, answered, Counters, run_switch, run_switch-latch, run_act, run_notify,
}
use couchbase_health_observe.Observer.Loop.State.{
  secondary, LoopConfig, TickInput, LoopState, remove,
}
use couchbase_health_observe.Observer.Loop.{
  start, follow_secondary, tick_report, region_of, set_gauges, watch, latched, perform, respond,
  tick, attempts, act_answer, notify_answer,
}
use couchbase_health_observe.Observer.Loop.Latch.{told, switches, tick-switches}
use couchbase_health_observe.Observer.Loop.Runs.{run}

abbrev pub is_moved : SwitchAnswer → Bool
is_moved errored = false
is_moved (answered moved) = moved

abbrev pub is_errored : SwitchAnswer → Bool
is_errored errored = true
is_errored (answered moved) = false

pub lookup-remove :
    {V : Type 0} (k j : Str) (m : Dict V)
    → lookup j (remove k m) ≡ (if str_eq k j then none else lookup j m)
unfolding lookup remove
lookup-remove k j [] = ground arith
lookup-remove k j ((i, v) ∷ m) =
    ground (arith, str_eq_iff k j, str_eq_iff i k, str_eq_iff i j, lookup-remove k j m)

module _ (cfg : LoopConfig) (counters : Counters) where
  -- How many ticks attempt the switch and have a property.
  unfoldable pub tally : (TickInput → Bool) → List TickInput → ℕ
  tally p [] = 0
  tally p (i ∷ older) =
      (if attempts cfg i (told cfg (run cfg counters older) i).1 && p i then 1 else 0)
      + tally p older

  -- The verdict of the newest tick on the region that is probed after it. Nothing is known of it
  -- before the first tick, nor at the tick that moves the probes to it.
  unfoldable pub verdict : List TickInput → Option Bool
  verdict [] = none
  verdict (i ∷ older) =
      let s = run cfg counters older in
      if switches cfg i (told cfg s i).1 && not cfg.dry_run
      then none
      else some (not (is_down (tick_report cfg s i).status))

  -- Each counter, by the attempts that it counts.
  pub record IsTallied (is : List TickInput) : Type 0 where
    pub delivered :
        (run cfg counters is).counters.webhook_ok
        ≡ counters.webhook_ok + tally (λ i. cfg.actuators.webhook && not i.notify_failed) is
    pub undelivered :
        (run cfg counters is).counters.webhook_error
        ≡ counters.webhook_error + tally (λ i. cfg.actuators.webhook && i.notify_failed) is
    pub moved :
        (run cfg counters is).counters.failover_total
        ≡ counters.failover_total + tally (λ i. cfg.actuators.k8s && is_moved i.act) is
    pub failed :
        (run cfg counters is).counters.failover_errors
        ≡ counters.failover_errors + tally (λ i. cfg.actuators.k8s && is_errored i.act) is

  tick-counters :
      (s : LoopState) (i : TickInput)
      → (tick cfg s i).counters ≡ (
          if attempts cfg i (told cfg s i).1
          then (run_switch (act_answer cfg i) (notify_answer cfg i) i.now s.counters).counters
          else s.counters)
  unfolding tick watch respond perform latched follow_secondary attempts
  tick-counters s i = ground arith

  run_switch-counters :
      (i : TickInput) (c : Counters)
      → let after = (run_switch (act_answer cfg i) (notify_answer cfg i) i.now c).counters in
        (after.webhook_ok
          ≡ (if cfg.actuators.webhook && not i.notify_failed then 1 else 0) + c.webhook_ok)
        × (after.webhook_error
            ≡ (if cfg.actuators.webhook && i.notify_failed then 1 else 0) + c.webhook_error)
        × (after.failover_total
            ≡ (if cfg.actuators.k8s && is_moved i.act then 1 else 0) + c.failover_total)
        × (after.failover_errors
            ≡ (if cfg.actuators.k8s && is_errored i.act then 1 else 0) + c.failover_errors)
  unfolding run_switch run_act run_notify
  run_switch-counters i c = ground arith

  pub run-IsTallied : (is : List TickInput) → IsTallied is
  unfolding run start tally follow_secondary
  run-IsTallied [] = record {
    delivered = ground arith;
    undelivered = ground arith;
    moved = ground arith;
    failed = ground arith;
  }
  run-IsTallied (i ∷ older) =
      let h = run-IsTallied older in
      let s = run cfg counters older in
      let t = tick-counters s i in
      let c = run_switch-counters i s.counters in
      record {
        delivered = ground (arith, h.delivered, t, c);
        undelivered = ground (arith, h.undelivered, t, c);
        moved = ground (arith, h.moved, t, c);
        failed = ground (arith, h.failed, t, c);
      }

  tick-up :
      (s : LoopState) (i : TickInput)
      → let up =
          insert
            (region_of cfg s.role)
            (not (is_down (tick_report cfg s i).status))
            s.metrics.couchbase_up in
        (tick cfg s i).metrics.couchbase_up ≡ (
          if switches cfg i (told cfg s i).1 && not cfg.dry_run
          then remove cfg.primary_region up
          else up)
  unfolding tick watch set_gauges respond perform latched follow_secondary attempts
  tick-up s i =
      ground (arith, run_switch-latch (act_answer cfg i) (notify_answer cfg i) i.now s.counters)

  pub tick-verdict :
      (s : LoopState) (i : TickInput)
      → str_eq cfg.primary_region cfg.secondary_region ≡ false
      → (s.role ≡ secondary → s.machine.switched ≡ true)
      → ((region : Str)
          → str_eq (region_of cfg s.role) region ≡ false
          → lookup region s.metrics.couchbase_up ≡ none)
      → lookup (region_of cfg (tick cfg s i).role) (tick cfg s i).metrics.couchbase_up ≡ (
          if switches cfg i (told cfg s i).1 && not cfg.dry_run
          then none
          else some (not (is_down (tick_report cfg s i).status)))
  unfolding attempts observe open_window
  tick-verdict s i apart followed probed =
      let b = not (is_down (tick_report cfg s i).status) in
      let up = insert (region_of cfg s.role) b s.metrics.couchbase_up in
      ground (
        arith,
        tick-up s i,
        tick-switches cfg s i,
        followed,
        probed cfg.secondary_region,
        lookup-remove cfg.primary_region cfg.secondary_region up,
        lookup-insert (region_of cfg s.role) cfg.secondary_region b s.metrics.couchbase_up,
        lookup-insert (region_of cfg s.role) (region_of cfg s.role) b s.metrics.couchbase_up,
        str_eq_refl (region_of cfg s.role),
      )
