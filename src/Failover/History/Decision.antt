-- ===== src/Failover/History/Decision.antt =====
-- `Observe` and `DownSeconds` against the history (pkg/state/machine.go).
use couchbase_health_observe.Prelude.{
  false, not, ◌&&◌, ◌||◌, ◌≡◌, List, [], ◌∷◌, Option, none, some, arith, Option-cases, inl, inr,
  if◌then◌else◌,
}
use couchbase_health_observe.Prelude.Int.{ℤ, pos, ◌≤ℤ◌, leb_ℤ}
use couchbase_health_observe.Svchealth.Types.{Status, up, degraded, down, is_down}
use couchbase_health_observe.Failover.Machine.{
  Config, Machine, new, observe, mark_switched, down_seconds,
}
use couchbase_health_observe.Failover.Machine.Clock.{sub_time}
use couchbase_health_observe.Failover.History.{
  Call, observed, marked, replay, or_else_time, down_since, has_mark,
}

-- What a machine remembers of its history.
record Remembers (cfg : Config) (h : List Call) (m : Machine) : Type 0 where
  config : m.cfg ≡ cfg
  latch : m.switched ≡ (cfg.already_switched || has_mark h)
  window : (if m.in_down then some m.first_down_at else none) ≡ down_since h

replay-Remembers : (cfg : Config) (h : List Call) → Remembers cfg h (replay cfg h)
unfolding replay new observe mark_switched down_since has_mark
replay-Remembers cfg [] = ground arith
replay-Remembers cfg (observed t s ∷ older) =
    let r = replay-Remembers cfg older in ground (arith, r.config, r.latch, r.window)
replay-Remembers cfg (marked ∷ older) =
    let r = replay-Remembers cfg older in ground (arith, r.config, r.latch, r.window)

-- After any history, a verdict asks for a switch exactly when it is DOWN, no switch was recorded
-- before, and the time since the first DOWN of the current window is at least the failover delay.
-- The verdict is handed back, failback is never asked for, and deciding never sets the latch.
pub observe-replay :
    (cfg : Config) (h : List Call) (t : ℤ) (s : Status)
    → let since = or_else_time (down_since h) t in
      let (m, res) = observe (replay cfg h) t s in
      (res ≡ record {
        status = s;
        switch_required =
            is_down s
            && (not (cfg.already_switched || has_mark h)
                && leb_ℤ cfg.failover_delay (sub_time t since));
        failback_required = false;
      })
      × (m.switched ≡ (cfg.already_switched || has_mark h))
unfolding observe
observe-replay cfg h t s =
    let r = replay-Remembers cfg h in ground (arith, r.config, r.latch, r.window)

abbrev pub window_length : Option ℤ → ℤ → ℤ
window_length none now = pos 0
window_length (some since) now = sub_time now since

-- After any history, `DownSeconds` is the time since the first DOWN of the current window, and 0
-- outside one.
down_seconds-replay :
    (cfg : Config) (h : List Call) (now : ℤ)
    → down_seconds (replay cfg h) now ≡ window_length (down_since h) now
unfolding down_seconds
down_seconds-replay cfg h now =
    let r = replay-Remembers cfg h in ground (arith, r.config, r.latch, r.window)

-- The clock of a history never ran backwards, and stands at or before `now`.
abbrev pub IsOrdered : ℤ → List Call → Type 0
IsOrdered now [] = Unit
IsOrdered now (observed t s ∷ older) = (t ≤ℤ now) × IsOrdered t older
IsOrdered now (marked ∷ older) = IsOrdered now older

-- Every healthy verdict of the history was given at `t` or before.
abbrev pub HealthyBy : ℤ → List Call → Type 0
HealthyBy t [] = Unit
HealthyBy t (observed u s ∷ older) = (is_down s ≡ false → u ≤ℤ t) × HealthyBy t older
HealthyBy t (marked ∷ older) = HealthyBy t older

pub IsOrdered-HealthyBy : (t now : ℤ) (h : List Call) → IsOrdered t h → t ≤ℤ now → HealthyBy now h
IsOrdered-HealthyBy t now [] o l = tt
IsOrdered-HealthyBy t now (observed u s ∷ older) o l =
    (λ e. omega arith, IsOrdered-HealthyBy u now older o.1 (omega arith))
IsOrdered-HealthyBy t now (marked ∷ older) o l = IsOrdered-HealthyBy t now older o l

-- The window opened after every healthy verdict.
pub HealthyBy-down_since :
    (h : List Call) (now t : ℤ) → IsOrdered now h → down_since h ≡ some t → HealthyBy t h
unfolding down_since
HealthyBy-down_since [] now t o e = cc
HealthyBy-down_since (marked ∷ older) now t o e = HealthyBy-down_since older now t o e
HealthyBy-down_since (observed u down ∷ older) now t o e = elim (Option-cases (down_since older)) [
  | inl shut ↦
      let same : u ≡ t = ground arith in
      (λ healthy. cc, rw same at (IsOrdered-HealthyBy u u older o.1 (omega arith)))
  | inr (v, opened) ↦ (λ healthy. cc, HealthyBy-down_since older u t o.1 (ground arith))
]
HealthyBy-down_since (observed u up ∷ older) now t o e = cc
HealthyBy-down_since (observed u degraded ∷ older) now t o e = cc
