-- ===== src/Observer/Loop/Safety.antt =====
-- What holds of every run of the poll loop (cmd/svchealthcheck/main.go).
use couchbase_health_observe.Prelude.{
  ◌≤◌, Bool, true, false, not, ◌&&◌, ◌||◌, ◌≡◌, List, [], ◌∷◌, some, is_nil, if◌then◌else◌, arith,
}
use couchbase_health_observe.Prelude.Int.{ℤ, pos, ◌≤ℤ◌, ◌-ℤ◌}
use couchbase_health_observe.Svchealth.Types.{down, is_down}
use couchbase_health_observe.Failover.Machine.{mark_switched}
use couchbase_health_observe.Failover.Machine.Clock.{max_duration}
use couchbase_health_observe.Failover.History.{down_since, has_mark}
use couchbase_health_observe.Failover.History.Decision.{IsOrdered}
use couchbase_health_observe.Failover.History.Delay.{
  HealthyLongAgo, observe_patient, observe_persistent,
}
use couchbase_health_observe.Observer.Switching.{Counters, may_latch}
use couchbase_health_observe.Observer.Reconcile.{secondary_ready}
use couchbase_health_observe.Observer.Loop.State.{primary, secondary, LoopConfig, TickInput}
use couchbase_health_observe.Observer.Loop.{
  start, follow_secondary, tick_report, secondary_status, act_answer, notify_answer, attempts,
}
use couchbase_health_observe.Observer.Loop.Latch.{told, switches, tick-switches}
use couchbase_health_observe.Observer.Loop.Runs.{
  run, history, decision, attempts-unmarked, marks, marks-has_mark,
}

module _ (cfg : LoopConfig) (counters : Counters) where
  -- On a clock that never ran backwards, and with a failover delay that is a duration and not
  -- negative, a tick of any run attempts the switch only while its verdict is DOWN, none was
  -- recorded before (at startup or since), a secondary is configured, reachable and not DOWN, and
  -- every healthy verdict lies at least the failover delay back.
  pub attempt-patient :
      (is : List TickInput) (i : TickInput)
      → pos 0 ≤ℤ cfg.machine.failover_delay
      → cfg.machine.failover_delay ≤ℤ max_duration
      → IsOrdered i.observed_at (history cfg counters is)
      → attempts cfg i (told cfg (run cfg counters is) i).1 ≡ true
      → (is_down (tick_report cfg (run cfg counters is) i).status ≡ true)
        × ((cfg.machine.already_switched || has_mark (history cfg counters is)) ≡ false)
        × (is_nil cfg.secondary ≡ false)
        × (cfg.secondary_prober ≡ true)
        × (secondary_ready (secondary_status cfg i) ≡ true)
        × HealthyLongAgo cfg.machine.failover_delay i.observed_at (history cfg counters is)
  unfolding attempts
  attempt-patient is i p q o h =
      let (verdict, unmarked, reachable, ready, configured) =
        attempts-unmarked cfg counters is i h in
      (
        verdict,
        unmarked,
        configured,
        reachable,
        ready,
        observe_patient cfg.machine (history cfg counters is) i.observed_at
            (tick_report cfg (run cfg counters is) i).status p q o
            (ground (arith, decision cfg counters is i)),
      )

  -- A run records one switch at most, and none where it started out switched.
  run-one_switch :
      (is : List TickInput)
      → marks cfg counters (history cfg counters is)
        ≤ (if cfg.machine.already_switched then 0 else 1)
  unfolding history
  run-one_switch [] = ground arith
  run-one_switch (i ∷ older) = ground (
    arith,
    run-one_switch older,
    marks-has_mark cfg counters older,
    attempts-unmarked cfg counters older i,
  )

  abbrev follows : List TickInput → Bool
  follows is =
      (cfg.machine.already_switched && cfg.secondary_prober)
      || (has_mark (history cfg counters is) && not cfg.dry_run)

  start-prober :
      ((run cfg counters []).prober ≡ (if follows [] then secondary else primary))
      × ((run cfg counters []).role ≡ (run cfg counters []).prober)
  unfolding run history start follow_secondary has_mark
  start-prober = ground arith

  has_mark-history :
      (is : List TickInput) (i : TickInput)
      → has_mark (history cfg counters (i ∷ is)) ≡ (
          switches cfg i (told cfg (run cfg counters is) i).1 || has_mark (history cfg counters is))
  unfolding history has_mark
  has_mark-history is i = ground arith

  tick-prober :
      (is : List TickInput) (i : TickInput)
      → let s = run cfg counters is in
        let moves = switches cfg i (told cfg s i).1 && not cfg.dry_run in
        ((run cfg counters (i ∷ is)).prober ≡ (if moves then secondary else s.prober))
        × ((run cfg counters (i ∷ is)).role ≡ (if moves then secondary else s.role))
  unfolding run
  tick-prober is i = let t = tick-switches cfg (run cfg counters is) i in (t.2, t.1)

  prober-follows :
      (is : List TickInput)
      → ((run cfg counters is).prober ≡ (if follows is then secondary else primary))
        × ((run cfg counters is).role ≡ (run cfg counters is).prober)
  prober-follows [] = start-prober
  prober-follows (i ∷ older) =
      ground (arith, tick-prober older i, prober-follows older, has_mark-history older i)

  mark-reachable :
      (is : List TickInput)
      → has_mark (history cfg counters is) ≡ true
      → cfg.secondary_prober ≡ true
  mark-reachable [] h = unfold history has_mark in cc
  mark-reachable (i ∷ older) h = ground (
    arith,
    mark-reachable older,
    has_mark-history older i,
    attempts-unmarked cfg counters older i,
  )

  -- The cluster that is probed and the one that the labels name are the same in every run: the
  -- secondary where the loop started out switched with a connection to it, or where a switch was
  -- recorded outside a dry run; the primary otherwise. There is no way back. The secondary is
  -- probed only where there is a connection to it.
  pub run-prober :
      (is : List TickInput)
      → ((run cfg counters is).prober ≡ (if follows is then secondary else primary))
        × ((run cfg counters is).role ≡ (run cfg counters is).prober)
        × ((run cfg counters is).prober ≡ secondary → cfg.secondary_prober ≡ true)
  run-prober is =
      let (target, label) = prober-follows is in
      (target, label, λ e. ground (arith, mark-reachable is))

  -- With a failover delay that is a duration and not negative, the switch happens: a DOWN verdict
  -- that comes the failover delay or more after the first of its outage latches the machine at that
  -- tick, where no switch was recorded before, a secondary is configured, reachable and not DOWN,
  -- and the path that the latch follows succeeds. Outside a dry run the secondary is probed from
  -- then on.
  pub run-switches :
      (is : List TickInput) (i : TickInput) (since : ℤ)
      → pos 0 ≤ℤ cfg.machine.failover_delay
      → cfg.machine.failover_delay ≤ℤ max_duration
      → (tick_report cfg (run cfg counters is) i).status ≡ down
      → down_since (history cfg counters is) ≡ some since
      → cfg.machine.failover_delay ≤ℤ i.observed_at -ℤ since
      → (cfg.machine.already_switched || has_mark (history cfg counters is)) ≡ false
      → is_nil cfg.secondary ≡ false
      → secondary_ready (secondary_status cfg i) ≡ true
      → may_latch (act_answer cfg i) (notify_answer cfg i) ≡ true
      → ((run cfg counters (i ∷ is)).machine.switched ≡ true)
        × (cfg.dry_run ≡ false → (run cfg counters (i ∷ is)).prober ≡ secondary)
  unfolding run attempts mark_switched
  run-switches is i since p q verdict outage late unmarked configured ready success =
      let asked =
        observe_persistent cfg.machine (history cfg counters is) [] since i.observed_at p q outage
          unmarked late in
      ground (arith, asked, decision cfg counters is i, tick-switches cfg (run cfg counters is) i)
