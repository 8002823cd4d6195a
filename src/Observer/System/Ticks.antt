-- ===== src/Observer/System/Ticks.antt =====
-- One tick of the whole system: what it does to the loop and to the cluster (cmd/svchealthcheck, pkg/actuator, pkg/notify).
use couchbase_health_observe.Prelude.{
  true, false, ◌&&◌, ◌||◌, ◌≡◌, refl, ap, List, [], ◌∷◌, if◌then◌else◌, arith,
}
use couchbase_health_observe.Prelude.Int.{ℤ}
use couchbase_health_observe.Actuator.Types.{Ref, has_ref}
use couchbase_health_observe.Actuator.Kube.{Kube}
use couchbase_health_observe.Actuator.Switch.{switch}
use couchbase_health_observe.Actuator.Switch.Reads.{on_secondary, stamped}
use couchbase_health_observe.Failover.Machine.{Machine, Result, observe, mark_switched, new}
use couchbase_health_observe.Observer.Switching.{Counters}
use couchbase_health_observe.Observer.Loop.State.{TickInput, LoopState}
use couchbase_health_observe.Observer.Loop.{
  start, watch, tick_report, secondary_status, attempts, tick, follow_secondary,
}
use couchbase_health_observe.Observer.Loop.Latch.{told, switches, tick-switches}
use couchbase_health_observe.Observer.Loop.Runs.{run}
use couchbase_health_observe.Observer.System.{
  SystemConfig, Surroundings, actuator_config, answer_of, input_of, calls_actuator, system_tick,
  system_run,
}

pub observe-latch :
    (m : Machine) (t : ℤ) (s : _)
    → ((observe m t s).0.switched ≡ m.switched)
      × ((observe m t s).1.switch_required ≡ true → m.switched ≡ false)
unfolding observe
observe-latch m t s = ground arith

module _ (K : Kube) (c : SystemConfig) where
  -- Every target ConfigMap holds the secondary.
  abbrev pub AllSwitched : K.World → Type 0
  AllSwitched w =
      (r : Ref)
      → has_ref c.loop.config_maps r ≡ true
      → on_secondary K (actuator_config c) w r ≡ true

  -- Every target Deployment carries the secondary's stamp.
  abbrev pub AllStamped : K.World → Type 0
  AllStamped w =
      (r : Ref) → has_ref c.loop.deployments r ≡ true → stamped K (actuator_config c) w r ≡ true

module _ (K : Kube) (c : SystemConfig) (counters : Counters) (w0 : K.World) where
  abbrev pub state : List Surroundings → LoopState
  state xs = (system_run K c counters w0 xs).0

  abbrev pub cluster : List Surroundings → K.World
  cluster xs = (system_run K c counters w0 xs).1

  -- The inputs that the loop had during a run of the system.
  unfoldable pub inputs : List Surroundings → List TickInput
  inputs [] = []
  inputs (x ∷ xs) = input_of K c x (state xs) (cluster xs) ∷ inputs xs

  pub state-run : (xs : List Surroundings) → state xs ≡ run c.loop counters (inputs xs)
  unfolding system_run system_tick inputs run
  state-run [] = refl
  state-run (x ∷ xs) =
      ap (λ s. tick c.loop s (input_of K c x (state xs) (cluster xs))) (state-run xs)

  pub input_of-act :
      (x : Surroundings) (s : LoopState) (w : K.World)
      → (input_of K c x s w).act ≡ answer_of (switch K (actuator_config c) x.stamp w).0
  unfolding input_of
  input_of-act x s w = refl

  -- The cluster after a tick, by the machine's decision at it.
  pub tick-cluster :
      (x : Surroundings) (xs : List Surroundings)
      → let i = input_of K c x (state xs) (cluster xs) in
        cluster (x ∷ xs) ≡ (
          if attempts c.loop i (told c.loop (state xs) i).1 && c.loop.actuators.k8s
          then (switch K (actuator_config c) x.stamp (cluster xs)).1
          else cluster xs)
  unfolding system_run system_tick calls_actuator input_of watch tick_report attempts
      secondary_status
  tick-cluster x xs = refl

  pub latching-quiet :
      (x : Surroundings) (s : LoopState) (w : K.World) (res : Result)
      → c.loop.actuators.k8s ≡ true
      → switches c.loop (input_of K c x s w) res ≡ true
      → (attempts c.loop (input_of K c x s w) res ≡ true)
        × ((switch K (actuator_config c) x.stamp w).0.1 ≡ [])
  latching-quiet x s w res k8s sw = ground (arith, input_of-act x s w)

  -- A tick latches the machine where the switch may latch, and attempts it only before.
  pub tick-latch :
      (x : Surroundings) (xs : List Surroundings)
      → let i = input_of K c x (state xs) (cluster xs) in
        let (m, res) = told c.loop (state xs) i in
        ((state (x ∷ xs)).machine.switched ≡ (switches c.loop i res || (state xs).machine.switched))
        × (attempts c.loop i res ≡ true → (state xs).machine.switched ≡ false)
  unfolding system_run system_tick attempts mark_switched
  tick-latch x xs =
      let i = input_of K c x (state xs) (cluster xs) in
      ground (
        arith,
        tick-switches c.loop (state xs) i,
        observe-latch (state xs).machine i.observed_at (tick_report c.loop (state xs) i).status,
      )

  pub start-latch : (state []).machine.switched ≡ c.loop.machine.already_switched
  unfolding system_run start follow_secondary new
  start-latch = ground arith
