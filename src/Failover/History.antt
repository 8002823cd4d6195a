-- ===== src/Failover/History.antt =====
-- Histories of what a machine is told, newest first, and what they say independently of it.
pub mod Decision
pub mod Delay
use couchbase_health_observe.Prelude.{
  Bool, true, false, ◌||◌, List, [], ◌∷◌, Option, none, some, if◌then◌else◌,
}
use couchbase_health_observe.Prelude.Int.{ℤ}
use couchbase_health_observe.Svchealth.Types.{Status, is_down}
use couchbase_health_observe.Failover.Machine.{Config, Machine, new, observe, mark_switched}

pub data Call : Type 0 where
  observed : ℤ → Status → Call
  marked : Call

-- The machine after the calls of a history, the oldest call first.
unfoldable pub replay : Config → List Call → Machine
replay cfg [] = new cfg
replay cfg (observed t s ∷ older) = (observe (replay cfg older) t s).0
replay cfg (marked ∷ older) = mark_switched (replay cfg older)

abbrev pub or_else_time : Option ℤ → ℤ → ℤ
or_else_time none t = t
or_else_time (some u) t = u

-- The time of the first DOWN since the last healthy verdict, if the last verdict is DOWN.
unfoldable pub down_since : List Call → Option ℤ
down_since [] = none
down_since (observed t s ∷ older) =
    let window = some (or_else_time (down_since older) t) in if is_down s then window else none
down_since (marked ∷ older) = down_since older

-- A switch was recorded somewhere in the history.
unfoldable pub has_mark : List Call → Bool
has_mark [] = false
has_mark (observed t s ∷ older) = has_mark older
has_mark (marked ∷ older) = true
