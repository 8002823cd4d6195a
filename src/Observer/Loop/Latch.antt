-- ===== src/Observer/Loop/Latch.antt =====
-- When a tick switches, and what the switch moves (cmd/svchealthcheck/main.go).
use couchbase_health_observe.Prelude.{Bool, not, ◌&&◌, ◌≡◌, refl, if◌then◌else◌, arith}
use couchbase_health_observe.Failover.Machine.{Machine, Result, observe, mark_switched}
use couchbase_health_observe.Observer.Switching.{may_latch, run_switch-latch}
use couchbase_health_observe.Observer.Loop.State.{secondary, LoopConfig, TickInput, LoopState}
use couchbase_health_observe.Observer.Loop.{
  tick_report, watch, act_answer, notify_answer, attempts, respond, tick,
}

-- The machine's step at a tick.
abbrev pub told : LoopConfig → LoopState → TickInput → Machine × Result
told cfg s i = observe s.machine i.observed_at (tick_report cfg s i).status

watch-parts :
    (cfg : LoopConfig) (s : LoopState) (i : TickInput)
    → let (s', res) = watch cfg s i in
      (s'.machine ≡ (told cfg s i).0)
      × (res ≡ (told cfg s i).1)
      × (s'.role ≡ s.role)
      × (s'.prober ≡ s.prober)
unfolding watch
watch-parts cfg s i = (refl, refl, refl, refl)

-- The tick makes a switch, and the switch may latch.
abbrev pub switches : LoopConfig → TickInput → Result → Bool
switches cfg i res = attempts cfg i res && may_latch (act_answer cfg i) (notify_answer cfg i)

respond-machine :
    (cfg : LoopConfig) (s : LoopState) (i : TickInput) (res : Result)
    → let s' = respond cfg s i res in
      let moves = switches cfg i res && not cfg.dry_run in
      (s'.machine ≡ (if switches cfg i res then mark_switched s.machine else s.machine))
      × (s'.role ≡ (if moves then secondary else s.role))
      × (s'.prober ≡ (if moves then secondary else s.prober))
unfolding respond attempts
respond-machine cfg s i res =
    ground (arith, run_switch-latch (act_answer cfg i) (notify_answer cfg i) i.now s.counters)

-- A tick changes the machine by its verdict, and latches it exactly where the switch was asked for,
-- a secondary is configured and not DOWN, and the path that the latch follows succeeded. The label
-- and the probe target move to the secondary exactly then, and never in a dry run.
pub tick-switches :
    (cfg : LoopConfig) (s : LoopState) (i : TickInput)
    → let (m, res) = told cfg s i in
      let moves = switches cfg i res && not cfg.dry_run in
      let s' = tick cfg s i in
      (s'.machine ≡ (if switches cfg i res then mark_switched m else m))
      × (s'.role ≡ (if moves then secondary else s.role))
      × (s'.prober ≡ (if moves then secondary else s.prober))
unfolding tick
tick-switches cfg s i =
    let w = watch-parts cfg s i in
    let r = respond-machine cfg (watch cfg s i).0 i (watch cfg s i).1 in ground (arith, w, r)
