-- ===== src/Probes.antt =====
-- The process probes /healthz and /readyz (pkg/probes/probes.go). Times are nanoseconds since 1970.
use couchbase_health_observe.Prelude.{
  Bool, true, false, not, ◌≡◌, suc, ◌≢◌, ◌↔◌, refl, ℕ, zero, List, [], ◌∷◌, ◌++◌, Option, none,
  some, Str, if◌then◌else◌, arith,
}
use couchbase_health_observe.Prelude.Int.{ℤ, pos, negsuc, ◌≤ℤ◌, ◌<ℤ◌, leb_ℤ, leb_ℤ_iff, ◌-ℤ◌}
use couchbase_health_observe.Failover.Machine.Clock.{sub_time, saturate, max_duration}

pub record Heartbeat : Type 0 where
  pub last_unix_nano : ℤ

abbrev pub unticked : Heartbeat
unticked = record { last_unix_nano = pos 0 }

unfoldable pub tick_at : Heartbeat → ℤ → Heartbeat
tick_at h t = record { last_unix_nano = t }

abbrev is_zero : ℤ → Bool
is_zero (pos zero) = true
is_zero _ = false

unfoldable pub ticked : Heartbeat → Bool
ticked h = not (is_zero h.last_unix_nano)

unfoldable pub age : Heartbeat → ℤ → ℤ
age h now = sub_time now h.last_unix_nano

-- The status code; a nil heartbeat is `none`.
unfoldable pub liveness : Option Heartbeat → ℤ → ℤ → ℕ
unfolding ticked age
liveness none max_age now = 200
liveness (some h) max_age now =
    if not (ticked h) then 200 else if not (leb_ℤ (age h now) max_age) then 503 else 200

-- The status code and the body; `http.Error` ends its text by a line feed.
unfoldable pub readiness : Option Str → ℕ × Str
readiness (some err) = (503, err ++ (b'\n' ∷ []))
readiness none = (200, [])

-- The heartbeat after ticks at the given times, the newest first.
unfoldable pub after_ticks : List ℤ → Heartbeat
after_ticks [] = unticked
after_ticks (t ∷ older) = tick_at (after_ticks older) t

abbrev pub newest : List ℤ → ℤ
newest [] = pos 0
newest (t ∷ older) = t

is_zero_iff : (t : ℤ) → (is_zero t ≡ true) ↔ (t ≡ pos 0)
is_zero_iff (pos zero) = (λ e. refl, λ e. refl)
is_zero_iff (pos (suc n)) = ground arith
is_zero_iff (negsuc n) = ground arith

after_ticks-newest : (ts : List ℤ) → (after_ticks ts).last_unix_nano ≡ newest ts
unfolding after_ticks tick_at
after_ticks-newest [] = refl
after_ticks-newest (t ∷ older) = refl

-- Saturation does not move a value across a bound below the largest duration.
leb-sub_time :
    (b t u : ℤ) → pos 0 ≤ℤ b → b <ℤ max_duration → leb_ℤ (sub_time t u) b ≡ leb_ℤ (t -ℤ u) b
unfolding sub_time saturate
leb-sub_time b t u low high = ground arith

-- The liveness probe fails exactly where the loop has ticked and its newest tick, at a time other
-- than that of 1970, lies further back than the greatest age, which is neither negative nor the
-- largest duration. It passes without a heartbeat and before the first tick.
pub liveness-newest :
    (ts : List ℤ) (max_age now : ℤ)
    → pos 0 ≤ℤ max_age
    → max_age <ℤ max_duration
    → ((liveness (some (after_ticks ts)) max_age now ≡ 503)
        ↔ ((newest ts ≢ pos 0) × (max_age <ℤ now -ℤ newest ts)))
      × (liveness none max_age now ≡ 200)
unfolding liveness ticked age
liveness-newest ts max_age now low high = (
  ground (
    arith,
    after_ticks-newest ts,
    is_zero_iff (newest ts),
    leb-sub_time max_age now (newest ts) low high,
    leb_ℤ_iff (now -ℤ newest ts) max_age,
  ),
  refl,
)
