-- ===== src/Failover/Machine/Clock.antt =====
-- `time.Time.Sub`: a difference of times as an int64 of nanoseconds, saturated at its ends.
use couchbase_health_observe.Prelude.{◌≡◌, if◌then◌else◌, arith}
use couchbase_health_observe.Prelude.Int.{ℤ, pos, negsuc, ◌-ℤ◌, ◌≤ℤ◌, ltb_ℤ, leb_ℤ}

abbrev pub max_duration : ℤ
max_duration = pos 9223372036854775807

abbrev pub min_duration : ℤ
min_duration = negsuc 9223372036854775807

-- The values that a Go `time.Duration` can hold.
pub record IsDuration (d : ℤ) : Type 0 where
  pub above : min_duration ≤ℤ d
  pub below : d ≤ℤ max_duration

unfoldable pub saturate : ℤ → ℤ
saturate d =
    if ltb_ℤ max_duration d then max_duration else if ltb_ℤ d min_duration then min_duration else d

unfoldable pub sub_time : ℤ → ℤ → ℤ
unfolding saturate
sub_time t u = saturate (t -ℤ u)

pub saturate-IsDuration : (d : ℤ) → IsDuration (saturate d)
unfolding saturate
saturate-IsDuration d = ground arith

-- Saturation does not move a value across a bound that is a duration and is not negative.
pub leb-saturate : (b d : ℤ) → pos 0 ≤ℤ b → b ≤ℤ max_duration → leb_ℤ b (saturate d) ≡ leb_ℤ b d
unfolding saturate
leb-saturate b d h k = ground arith
