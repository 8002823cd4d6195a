-- ===== src/Observer/Loop/Metered.antt =====
-- The metrics over the runs of the poll loop (cmd/svchealthcheck/main.go, pkg/metrics/metrics.go).
use couchbase_health_observe.Prelude.{
  ◌+◌, ◌≤◌, Bool, true, false, not, ◌&&◌, ◌||◌, ◌≡◌, List, [], ◌∷◌, ◌++◌, Option, none, some, Str,
  str_eq, str_eq_iff, str_eq_refl, str_eq_comm, length, length-append, is_nil, is_some,
  if◌then◌else◌, if-intro, arith,
}
use couchbase_health_observe.Prelude.Int.{ℤ}
use couchbase_health_observe.Prelude.Dict.{Dict, lookup, insert, lookup-insert}
use couchbase_health_observe.Failover.Machine.{Result, new, observe, open_window, mark_switched}
use couchbase_health_observe.Observer.Switching.{
  SwitchAnswer, Counters, run_switch, run_act, run_notify,
}
use couchbase_health_observe.Observer.Reconcile.{secondary_ready}
use couchbase_health_observe.Observer.Loop.State.{
  LoopLine, switch_skipped, switch_held, secondary, LoopConfig, TickInput, LoopState,
}
use couchbase_health_observe.Observer.Loop.{
  start, follow_secondary, secondary_status, switch_event, tick_report, region_of, set_gauges,
  watch, latched, perform, respond, tick, act_answer, notify_answer,
}
use couchbase_health_observe.Observer.Loop.Runs.{run}
use couchbase_health_observe.Observer.Loop.Tally.{
  lookup-remove, verdict, IsTallied, run-IsTallied, tick-verdict,
}

abbrev pub reads : Option Bool → Bool
reads none = false
reads (some b) = b

-- The gauge of the region shows 1.
abbrev pub is_active : LoopState → Str → Bool
is_active s region = reads (lookup region s.metrics.active_region)

module _ (cfg : LoopConfig) (counters : Counters) where
  -- The gauge of the verdict shows no region but the one that is probed, that of the active region
  -- follows the latch, each event sent is one delivery counted, and at most one failover is counted.
  pub record IsMetered (s : LoopState) : Type 0 where
    pub adopted : cfg.machine.already_switched ≡ true → s.machine.switched ≡ true
    pub probed :
        (region : Str)
        → str_eq (region_of cfg s.role) region ≡ false
        → lookup region s.metrics.couchbase_up ≡ none
    pub followed : s.role ≡ secondary → s.machine.switched ≡ true
    pub active_primary : is_active s cfg.primary_region ≡ not s.machine.switched
    pub active_secondary : is_active s cfg.secondary_region ≡ s.machine.switched
    pub deliveries :
        s.counters.webhook_ok + s.counters.webhook_error
        ≡ counters.webhook_ok + counters.webhook_error + length s.sent
    pub failovers :
        s.counters.failover_total
        ≤ counters.failover_total
          + (if s.machine.switched && not cfg.machine.already_switched then 1 else 0)

  start-IsMetered :
      str_eq cfg.primary_region cfg.secondary_region ≡ false → IsMetered (start cfg counters)
  unfolding start follow_secondary new lookup
  start-IsMetered apart = record {
    adopted = λ a. ground arith;
    probed = λ region other. ground arith;
    followed = λ f. ground arith;
    active_primary = ground (
      arith,
      str_eq_refl cfg.primary_region,
      str_eq_iff cfg.secondary_region cfg.primary_region,
      str_eq_iff cfg.primary_region cfg.secondary_region,
    );
    active_secondary = ground (arith, str_eq_refl cfg.secondary_region);
    deliveries = ground arith;
    failovers = ground arith;
  }

  watch-IsMetered :
      (s : LoopState) (i : TickInput)
      → IsMetered s
      → let (s', res) = watch cfg s i in
        IsMetered s' × ((not res.switch_required || not s'.machine.switched) ≡ true)
  unfolding watch set_gauges observe open_window
  watch-IsMetered s i h = (
    record {
      adopted = λ a. ground (arith, h.adopted);
      probed = λ region other. ground (
        arith,
        h.probed region,
        lookup-insert (region_of cfg s.role) region true s.metrics.couchbase_up,
        lookup-insert (region_of cfg s.role) region false s.metrics.couchbase_up,
      );
      followed = λ f. ground (arith, h.followed);
      active_primary = ground (arith, h.active_primary);
      active_secondary = ground (arith, h.active_secondary);
      deliveries = h.deliveries;
      failovers = ground (arith, h.failovers);
    },
    ground arith,
  )

  run_switch-counts :
      (act : Option SwitchAnswer) (notifier : Option Bool) (now : ℤ) (c : Counters)
      → let p = run_switch act notifier now c in
        (p.counters.webhook_ok + p.counters.webhook_error
          ≡ c.webhook_ok + c.webhook_error + (if is_some notifier then 1 else 0))
        × (p.counters.failover_total ≤ c.failover_total + (if p.latch then 1 else 0))
  unfolding run_switch run_act run_notify
  run_switch-counts act notifier now c = ground arith

  active-latched :
      (gauges : Dict Bool)
      → str_eq cfg.primary_region cfg.secondary_region ≡ false
      → let moved = insert cfg.secondary_region true (insert cfg.primary_region false gauges) in
        (reads (lookup cfg.primary_region moved) ≡ false)
        × (reads (lookup cfg.secondary_region moved) ≡ true)
  active-latched gauges apart =
      let before = insert cfg.primary_region false gauges in
      ground (
        arith,
        lookup-insert cfg.secondary_region cfg.primary_region true before,
        lookup-insert cfg.secondary_region cfg.secondary_region true before,
        lookup-insert cfg.primary_region cfg.primary_region false gauges,
        str_eq_refl cfg.primary_region,
        str_eq_refl cfg.secondary_region,
        str_eq_comm cfg.primary_region cfg.secondary_region,
      )

  perform-IsMetered :
      (s : LoopState) (i : TickInput)
      → IsMetered s
      → str_eq cfg.primary_region cfg.secondary_region ≡ false
      → s.machine.switched ≡ false
      → IsMetered (perform cfg s i)
  unfolding perform latched follow_secondary mark_switched
  perform-IsMetered s i h apart unswitched =
      let counts = run_switch-counts (act_answer cfg i) (notify_answer cfg i) i.now s.counters in
      let active = active-latched s.metrics.active_region apart in
      record {
        adopted = ground (arith, h.adopted);
        probed = λ region other. ground (
          arith,
          h.probed region,
          h.followed,
          lookup-remove cfg.primary_region region s.metrics.couchbase_up,
        );
        followed = ground (arith, h.followed);
        active_primary = ground (arith, h.active_primary, active);
        active_secondary = ground (arith, h.active_secondary, active);
        deliveries = ground (
          arith,
          h.deliveries,
          counts,
          length-append s.sent (switch_event cfg s i (tick_report cfg s i) ∷ []),
        );
        failovers = ground (arith, h.failovers, h.adopted, counts);
      }

  IsMetered-noted :
      (s : LoopState) (noted : List LoopLine) (up : Option Bool)
      → IsMetered s
      → IsMetered (record s { lines = noted; metrics = record (s.metrics) { secondary_up = up } })
  IsMetered-noted s noted up h = record {
    adopted = h.adopted;
    probed = h.probed;
    followed = h.followed;
    active_primary = h.active_primary;
    active_secondary = h.active_secondary;
    deliveries = h.deliveries;
    failovers = h.failovers;
  }

  respond-IsMetered :
      (s : LoopState) (i : TickInput) (res : Result)
      → IsMetered s
      → str_eq cfg.primary_region cfg.secondary_region ≡ false
      → (not res.switch_required || not s.machine.switched) ≡ true
      → IsMetered (respond cfg s i res)
  unfolding respond
  respond-IsMetered s i res h apart guard =
      let ready = secondary_ready (secondary_status cfg i) in
      let gauged = record s { metrics = record (s.metrics) { secondary_up = some ready } } in
      if-intro IsMetered (not res.switch_required) (λ quiet. h)
        (λ asked.
          if-intro IsMetered (is_nil cfg.secondary)
            (λ skipped.
              IsMetered-noted s (s.lines ++ (switch_skipped ∷ [])) s.metrics.secondary_up h)
            (λ configured.
              if-intro IsMetered (not ready)
                (λ held.
                  IsMetered-noted s (s.lines ++ (switch_held (secondary_status cfg i) ∷ []))
                    (some ready) h)
                (λ performs.
                  perform-IsMetered gauged i (IsMetered-noted s s.lines (some ready) h) apart
                    (ground arith))))

  tick-IsMetered :
      (s : LoopState) (i : TickInput)
      → str_eq cfg.primary_region cfg.secondary_region ≡ false
      → IsMetered s
      → IsMetered (tick cfg s i)
  unfolding tick
  tick-IsMetered s i apart h =
      let (watched, guard) = watch-IsMetered s i h in
      let (s', res) = watch cfg s i in respond-IsMetered s' i res watched apart guard

  run-metrics :
      (is : List TickInput)
      → str_eq cfg.primary_region cfg.secondary_region ≡ false
      → IsMetered (run cfg counters is)
  unfolding run
  run-metrics [] apart = start-IsMetered apart
  run-metrics (i ∷ older) apart =
      tick-IsMetered (run cfg counters older) i apart (run-metrics older apart)

  -- Where the two regions have different labels, after every run: `couchbase_up` shows no region but
  -- the one that is probed, and of that one the verdict of the newest tick, 1 where it is not DOWN;
  -- it shows none before the first tick and after the tick that moves the probes. `webhook_total`
  -- has grown by the attempts at the switch whose delivery succeeded, as `ok`, and by those whose
  -- delivery failed, as `error`; `failover_total` by the attempts at which the actuator answered
  -- that it moved something, and `failover_errors` by those at which it answered an error; each
  -- event sent is one delivery counted, and at most one failover is counted, none where the machine
  -- is not latched or started out latched. `active_region` follows the latch, in a dry run and with
  -- the webhook alone too: it is 1 for the secondary exactly where the machine is latched, and for
  -- the primary exactly where it is not.
  pub run-IsMetered :
      (is : List TickInput)
      → str_eq cfg.primary_region cfg.secondary_region ≡ false
      → let s = run cfg counters is in
        IsMetered s
        × IsTallied cfg counters is
        × (lookup (region_of cfg s.role) s.metrics.couchbase_up ≡ verdict cfg counters is)
  unfolding run verdict start follow_secondary lookup
  run-IsMetered [] apart = (run-metrics [] apart, run-IsTallied cfg counters [], ground arith)
  run-IsMetered (i ∷ older) apart =
      let h = run-metrics older apart in
      (
        run-metrics (i ∷ older) apart,
        run-IsTallied cfg counters (i ∷ older),
        tick-verdict cfg counters (run cfg counters older) i apart h.followed h.probed,
      )
