-- ===== src/Failover/History/Delay.antt =====
-- The failover delay (pkg/state/machine.go): it is served in full, and then every DOWN asks.
use couchbase_health_observe.Prelude.{
  true, false, ◌||◌, ◌≡◌, refl, List, [], ◌∷◌, some, arith, Option-cases, inl, inr,
}
use couchbase_health_observe.Prelude.Int.{ℤ, pos, ◌≤ℤ◌, leb_ℤ, ◌-ℤ◌, -ℤ_parts, leb_ℤ_iff}
use couchbase_health_observe.Svchealth.Types.{Status, down, is_down}
use couchbase_health_observe.Failover.Machine.{Config, observe}
use couchbase_health_observe.Failover.Machine.Clock.{sub_time, leb-saturate, max_duration}
use couchbase_health_observe.Failover.History.{
  Call, observed, marked, replay, or_else_time, down_since, has_mark,
}
use couchbase_health_observe.Failover.History.Decision.{
  observe-replay, IsOrdered, HealthyBy, IsOrdered-HealthyBy, HealthyBy-down_since,
}

leb-sub_time :
    (b t u : ℤ) → pos 0 ≤ℤ b → b ≤ℤ max_duration → leb_ℤ b (sub_time t u) ≡ leb_ℤ b (t -ℤ u)
unfolding sub_time
leb-sub_time b t u h k = leb-saturate b (t -ℤ u) h k

-- Every healthy verdict of the history lies at least `delay` before `now`.
abbrev pub HealthyLongAgo : ℤ → ℤ → List Call → Type 0
HealthyLongAgo delay now [] = Unit
HealthyLongAgo delay now (observed u s ∷ older) =
    (is_down s ≡ false → delay ≤ℤ now -ℤ u) × HealthyLongAgo delay now older
HealthyLongAgo delay now (marked ∷ older) = HealthyLongAgo delay now older

HealthyLongAgo-of_HealthyBy :
    (delay now since : ℤ) (h : List Call)
    → delay ≤ℤ now -ℤ since
    → HealthyBy since h
    → HealthyLongAgo delay now h
HealthyLongAgo-of_HealthyBy delay now since [] l b = tt
HealthyLongAgo-of_HealthyBy delay now since (observed u s ∷ older) l b = (
  λ healthy. let before = b.0 healthy in omega (arith, -ℤ_parts now u, -ℤ_parts now since, before),
  HealthyLongAgo-of_HealthyBy delay now since older l b.1,
)
HealthyLongAgo-of_HealthyBy delay now since (marked ∷ older) l b =
    HealthyLongAgo-of_HealthyBy delay now since older l b

required-late :
    (cfg : Config) (h : List Call) (now : ℤ) (s : Status)
    → pos 0 ≤ℤ cfg.failover_delay
    → cfg.failover_delay ≤ℤ max_duration
    → (observe (replay cfg h) now s).1.switch_required ≡ true
    → cfg.failover_delay ≤ℤ now -ℤ or_else_time (down_since h) now
required-late cfg h now s p q r =
    let since = or_else_time (down_since h) now in
    (leb_ℤ_iff cfg.failover_delay (now -ℤ since)).0
      (ground (arith, observe-replay cfg h now s, leb-sub_time cfg.failover_delay now since))

-- On a clock that never runs backwards and with a failover delay that is a duration and not
-- negative, a machine that asks for a switch was told nothing healthy during the failover delay
-- before that moment.
pub observe_patient :
    (cfg : Config) (h : List Call) (now : ℤ) (s : Status)
    → pos 0 ≤ℤ cfg.failover_delay
    → cfg.failover_delay ≤ℤ max_duration
    → IsOrdered now h
    → (observe (replay cfg h) now s).1.switch_required ≡ true
    → HealthyLongAgo cfg.failover_delay now h
observe_patient cfg h now s p q o r = elim (Option-cases (down_since h)) [
  | inl shut ↦
      HealthyLongAgo-of_HealthyBy cfg.failover_delay now now h
        (rw shut at (required-late cfg h now s p q r))
        (IsOrdered-HealthyBy now now h o (omega arith))
  | inr (t, opened) ↦
      HealthyLongAgo-of_HealthyBy cfg.failover_delay now t h
        (rw opened at (required-late cfg h now s p q r)) (HealthyBy-down_since h now t o opened)
]

-- Further DOWN verdicts at the given times, the newest first.
abbrev pub still_down : List ℤ → List Call → List Call
still_down [] h = h
still_down (t ∷ ts) h = observed t down ∷ still_down ts h

still_down-down_since :
    (ts : List ℤ) (h : List Call) (t : ℤ)
    → down_since h ≡ some t
    → down_since (still_down ts h) ≡ some t
unfolding down_since
still_down-down_since [] h t e = e
still_down-down_since (u ∷ ts) h t e = ground (arith, still_down-down_since ts h t)

still_down-has_mark : (ts : List ℤ) (h : List Call) → has_mark (still_down ts h) ≡ has_mark h
unfolding has_mark
still_down-has_mark [] h = refl
still_down-has_mark (u ∷ ts) h = still_down-has_mark ts h

-- With a failover delay that is a duration and not negative: once an outage has lasted the failover
-- delay, every DOWN verdict asks for the switch until one is recorded, however many DOWN verdicts
-- were told in between; a failed switch is asked for again.
pub observe_persistent :
    (cfg : Config) (h : List Call) (ts : List ℤ) (since now : ℤ)
    → pos 0 ≤ℤ cfg.failover_delay
    → cfg.failover_delay ≤ℤ max_duration
    → down_since h ≡ some since
    → (cfg.already_switched || has_mark h) ≡ false
    → cfg.failover_delay ≤ℤ now -ℤ since
    → (observe (replay cfg (still_down ts h)) now down).1.switch_required ≡ true
observe_persistent cfg h ts since now p q e unmarked late = ground (
  arith,
  observe-replay cfg (still_down ts h) now down,
  still_down-down_since ts h since e,
  still_down-has_mark ts h,
  leb-sub_time cfg.failover_delay now since,
  leb_ℤ_iff cfg.failover_delay (now -ℤ since),
)
