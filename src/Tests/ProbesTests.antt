-- ===== src/Tests/ProbesTests.antt =====
-- A loop that stalled after its second tick (pkg/probes).
use couchbase_health_observe.Prelude.{◌≡◌, ◌≢◌, ◌↔◌, refl, [], ◌∷◌, some, none, arith}
use couchbase_health_observe.Prelude.Int.{pos, ◌<ℤ◌, ◌-ℤ◌}
use couchbase_health_observe.Failover.Machine.Clock.{sub_time, saturate}
use couchbase_health_observe.Probes.{liveness, after_ticks, tick_at, ticked, age, liveness-newest}

stalled : liveness (some (after_ticks (pos 20 ∷ pos 10 ∷ []))) (pos 30) (pos 51) ≡ 503
unfolding liveness after_ticks tick_at ticked age sub_time saturate ◌-ℤ◌
stalled = refl

liveness-newest_example :
    ((liveness (some (after_ticks (pos 20 ∷ pos 10 ∷ []))) (pos 30) (pos 51) ≡ 503)
      ↔ ((pos 20 ≢ pos 0) × (pos 30 <ℤ pos 51 -ℤ pos 20)))
    × (liveness none (pos 30) (pos 51) ≡ 200)
liveness-newest_example =
    liveness-newest (pos 20 ∷ pos 10 ∷ []) (pos 30) (pos 51) (omega arith) (omega arith)
