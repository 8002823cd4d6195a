-- ===== src/Observer/Loop/Runs.antt =====
-- Runs of the poll loop from startup, over any inputs, newest first (cmd/svchealthcheck/main.go).
use couchbase_health_observe.Prelude.{
  ℕ, suc, true, false, ◌||◌, ◌≡◌, refl, ap, List, [], ◌∷◌, is_nil, if◌then◌else◌, arith,
}
use couchbase_health_observe.Svchealth.Types.{is_down}
use couchbase_health_observe.Failover.Machine.{observe}
use couchbase_health_observe.Failover.History.{Call, observed, marked, replay, has_mark}
use couchbase_health_observe.Failover.History.Decision.{observe-replay}
use couchbase_health_observe.Observer.Switching.{Counters}
use couchbase_health_observe.Observer.Reconcile.{secondary_ready}
use couchbase_health_observe.Observer.Loop.State.{LoopConfig, TickInput, LoopState}
use couchbase_health_observe.Observer.Loop.{start, tick_report, secondary_status, attempts, tick}
use couchbase_health_observe.Observer.Loop.Latch.{told, switches, tick-switches}

module _ (cfg : LoopConfig) (counters : Counters) where
  -- The state after the ticks of a list, the oldest first.
  unfoldable pub run : List TickInput → LoopState
  run [] = start cfg counters
  run (i ∷ older) = tick cfg (run older) i

  -- What the machine was told during them.
  unfoldable pub history : List TickInput → List Call
  history [] = []
  history (i ∷ older) =
      let (m, res) = told cfg (run older) i in
      let obs = observed i.observed_at (tick_report cfg (run older) i).status ∷ history older in
      if switches cfg i res then marked ∷ obs else obs

  pub run-replay : (is : List TickInput) → (run is).machine ≡ replay cfg.machine (history is)
  unfolding run history replay start
  run-replay [] = ground arith
  run-replay (i ∷ older) = ground (arith, tick-switches cfg (run older) i, run-replay older)

  -- The decision at a tick, by the history of what the machine was told.
  pub decision :
      (is : List TickInput) (i : TickInput)
      → told cfg (run is) i
        ≡ observe
            (replay cfg.machine (history is))
            i.observed_at
            (tick_report cfg (run is) i).status
  decision is i =
      ap (λ m. observe m i.observed_at (tick_report cfg (run is) i).status) (run-replay is)

  pub attempts-unmarked :
      (is : List TickInput) (i : TickInput)
      → attempts cfg i (told cfg (run is) i).1 ≡ true
      → (is_down (tick_report cfg (run is) i).status ≡ true)
        × ((cfg.machine.already_switched || has_mark (history is)) ≡ false)
        × (cfg.secondary_prober ≡ true)
        × (secondary_ready (secondary_status cfg i) ≡ true)
        × (is_nil cfg.secondary ≡ false)
  unfolding attempts secondary_status secondary_ready
  attempts-unmarked is i h = ground (
    arith,
    decision is i,
    observe-replay cfg.machine (history is) i.observed_at (tick_report cfg (run is) i).status,
  )

  abbrev pub marks : List Call → ℕ
  marks [] = 0
  marks (observed t s ∷ calls) = marks calls
  marks (marked ∷ calls) = suc (marks calls)

  pub marks-has_mark :
      (is : List TickInput) → marks (history is) ≡ (if has_mark (history is) then 1 else 0)
  unfolding history has_mark
  marks-has_mark [] = refl
  marks-has_mark (i ∷ older) = ground (arith, marks-has_mark older, attempts-unmarked older i)
