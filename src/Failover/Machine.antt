-- ===== src/Failover/Machine.antt =====
-- pkg/state/machine.go. Times and durations are integers of nanoseconds; the clock `Now` is
-- read by the caller and passed in.
pub mod Clock
use couchbase_health_observe.Prelude.{Bool, true, false, not, ◌&&◌, if◌then◌else◌}
use couchbase_health_observe.Prelude.Int.{ℤ, pos, leb_ℤ}
use couchbase_health_observe.Svchealth.Types.{Status, is_down}
use Clock.{sub_time}

pub record Config : Type 0 where
  pub failover_delay : ℤ
  pub already_switched : Bool

pub record Machine : Type 0 where
  pub cfg : Config
  pub first_down_at : ℤ
  pub in_down : Bool
  pub switched : Bool

pub record Result : Type 0 where
  pub status : Status
  pub switch_required : Bool
  pub failback_required : Bool

-- The zero `time.Time` of `firstDownAt` is read only after `inDown` is set; it stands as 0.
unfoldable pub new : Config → Machine
new cfg = record {
  cfg = cfg;
  first_down_at = pos 0;
  in_down = false;
  switched = cfg.already_switched;
}

-- The DOWN branch of `Observe` up to the decision: the first DOWN opens the window.
unfoldable pub open_window : Machine → ℤ → Machine
open_window m now = if m.in_down then m else record m { in_down = true; first_down_at = now }

unfoldable pub observe : Machine → ℤ → Status → Machine × Result
unfolding open_window
observe m now status =
    if not (is_down status)
    then (
      record m { in_down = false },
      record { status = status; switch_required = false; failback_required = false },
    )
    else (let m' = open_window m now in
        (
          m',
          record {
            status = status;
            switch_required =
                not m'.switched && leb_ℤ m'.cfg.failover_delay (sub_time now m'.first_down_at);
            failback_required = false;
          },
        ))

unfoldable pub mark_switched : Machine → Machine
mark_switched m = record m { switched = true }

-- In nanoseconds; the conversion to a float of seconds is left out.
unfoldable pub down_seconds : Machine → ℤ → ℤ
down_seconds m now = if not m.in_down then pos 0 else sub_time now m.first_down_at

unfoldable pub switched : Machine → Bool
switched m = m.switched
