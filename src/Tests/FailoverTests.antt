-- ===== src/Tests/FailoverTests.antt =====
-- An outage at a delay of 10 (pkg/state/machine.go).
use couchbase_health_observe.Prelude.{Bool, true, false, not, ◌&&◌, ◌||◌, ◌≡◌, refl, List, [], ◌∷◌}
use couchbase_health_observe.Prelude.Int.{pos, leb_ℤ, ◌-ℤ◌}
use couchbase_health_observe.Svchealth.Types.{up, down, is_down}
use couchbase_health_observe.Failover.Machine.{Config, new, open_window, observe}
use couchbase_health_observe.Failover.Machine.Clock.{sub_time, saturate}
use couchbase_health_observe.Failover.History.{
  Call, observed, replay, or_else_time, down_since, has_mark,
}
use couchbase_health_observe.Failover.History.Decision.{observe-replay}

abbrev config : Config
config = record { failover_delay = pos 10; already_switched = false }

-- Healthy at 0, down at 5 and at 9.
abbrev outage : List Call
outage = observed (pos 9) down ∷ observed (pos 5) down ∷ observed (pos 0) up ∷ []

-- Its line names what the runs below compute through.
asked : Bool
unfolding replay new observe open_window sub_time saturate ◌-ℤ◌ down_since has_mark
asked = (observe (replay config outage) (pos 15) down).1.switch_required

asks : asked ≡ true
unfolding asked
asks = refl

observe-replay_example :
    let since = or_else_time (down_since outage) (pos 15) in
    let (m, res) = observe (replay config outage) (pos 15) down in
    (res ≡ record {
      status = down;
      switch_required =
          is_down down
          && (not (false || has_mark outage) && leb_ℤ (pos 10) (sub_time (pos 15) since));
      failback_required = false;
    })
    × (m.switched ≡ (false || has_mark outage))
observe-replay_example = observe-replay config outage (pos 15) down
