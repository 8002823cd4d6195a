-- ===== src/Observer/System/Frozen.antt =====
-- The cluster once the machine is latched (cmd/svchealthcheck/main.go).
use couchbase_health_observe.Prelude.{true, ◌≡◌, refl, ◌∙◌, List, [], ◌∷◌, ◌++◌, arith}
use couchbase_health_observe.Actuator.Kube.{Kube}
use couchbase_health_observe.Observer.Switching.{Counters}
use couchbase_health_observe.Observer.System.{SystemConfig, Surroundings}
use couchbase_health_observe.Observer.System.Ticks.{state, cluster, tick-cluster, tick-latch}

module _ (K : Kube) (c : SystemConfig) (counters : Counters) (w0 : K.World) where
  -- Once the machine is latched, by a switch of this run or by one that startup adopted, it stays
  -- latched, and no later tick of the run calls the actuator: the cluster that the loop leaves is the
  -- one that it latched on.
  pub run-frozen :
      (xs later : List Surroundings)
      → (state K c counters w0 xs).machine.switched ≡ true
      → ((state K c counters w0 (later ++ xs)).machine.switched ≡ true)
        × (cluster K c counters w0 (later ++ xs) ≡ cluster K c counters w0 xs)
  run-frozen xs [] latched = (latched, refl)
  run-frozen xs (x ∷ later) latched =
      let (still, same) = run-frozen xs later latched in
      let (latch, unlatched) = tick-latch K c counters w0 x (later ++ xs) in
      let idle : cluster K c counters w0 (x ∷ (later ++ xs))
          ≡ cluster K c counters w0 (later ++ xs) =
        ground (arith, tick-cluster K c counters w0 x (later ++ xs), unlatched, still) in
      (ground (arith, latch, still), idle ∙ same)
