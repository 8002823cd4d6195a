-- ===== src/Svchealth/Types.antt =====
-- pkg/svchealth/types.go and prober.go: the report, the probe, and the status strings.
use couchbase_health_observe.Prelude.{ℕ, Bool, List, Str}
use couchbase_health_observe.Prelude.Dict.{Dict}

-- "UP", "DEGRADED" and "DOWN", the three strings that the code uses for a status.
pub data Status : Type 0 where
  up degraded down : Status

-- The two tests of a status: that it is "DOWN", and that it is "UP".
abbrev pub is_down : Status → Bool
is_down down = Bool.true
is_down _ = Bool.false

abbrev pub is_up : Status → Bool
is_up up = Bool.true
is_up _ = Bool.false

pub record Probe : Type 0 where
  pub service : Str
  pub host : Str
  pub ok : Bool

pub record ServiceHealth : Type 0 where
  pub status : Status
  pub reachable : ℕ
  pub unreachable : List Str

-- The texts that `fmt.Sprintf` gives for `Report.Reason`, by their format and its arguments.
pub data Reason : Type 0 where
  all_reachable : Reason
  not_observed : Str → Reason
  critical_unreachable : Str → ℕ → ℕ → Reason
  non_critical_unreachable : Str → ℕ → ℕ → Reason

pub record Report : Type 0 where
  pub status : Status
  pub critical : List Str
  pub services : Dict ServiceHealth
  pub reason : Reason
  pub checked_at : Str
