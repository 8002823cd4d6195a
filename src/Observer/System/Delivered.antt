-- ===== src/Observer/System/Delivered.antt =====
-- What the whole system does to the cluster (cmd/svchealthcheck, pkg/actuator, pkg/notify).
use couchbase_health_observe.Prelude.{
  true, false, ◌≡◌, ◌⊎◌, inl, inr, ap, sym, ◌∙◌, List, [], ◌∷◌, is_nil, arith, Bool-cases,
}
use couchbase_health_observe.Prelude.Int.{pos, ◌≤ℤ◌}
use couchbase_health_observe.Svchealth.Types.{is_down}
use couchbase_health_observe.Actuator.Kube.{Kube, IsLawful}
use couchbase_health_observe.Actuator.Switch.{switch}
use couchbase_health_observe.Actuator.Switch.Outcome.{switch-converges}
use couchbase_health_observe.Failover.Machine.Clock.{max_duration}
use couchbase_health_observe.Failover.History.Decision.{IsOrdered}
use couchbase_health_observe.Failover.History.Delay.{HealthyLongAgo}
use couchbase_health_observe.Observer.Switching.{Counters}
use couchbase_health_observe.Observer.Reconcile.{secondary_ready}
use couchbase_health_observe.Observer.Loop.State.{LoopState}
use couchbase_health_observe.Observer.Loop.{tick_report, secondary_status, attempts}
use couchbase_health_observe.Observer.Loop.Latch.{told, switches}
use couchbase_health_observe.Observer.Loop.Runs.{history}
use couchbase_health_observe.Observer.Loop.Safety.{attempt-patient}
use couchbase_health_observe.Observer.System.{
  SystemConfig, Surroundings, actuator_config, input_of, system_run,
}
use couchbase_health_observe.Observer.System.Ticks.{
  AllSwitched, AllStamped, state, cluster, inputs, state-run, tick-cluster, tick-latch,
  latching-quiet, start-latch,
}

module _ (K : Kube) (L : IsLawful K) (c : SystemConfig) (counters : Counters) (w0 : K.World) where
  -- What a latched machine means for the cluster.
  abbrev Settled : LoopState × K.World → Type 0
  Settled (s, w) =
      s.machine.switched ≡ true
      → AllSwitched K c w × (c.loop.machine.already_switched ≡ false → AllStamped K c w)

  tick-Settled :
      (x : Surroundings) (xs : List Surroundings)
      → c.loop.actuators.k8s ≡ true
      → c.loop.dry_run ≡ false
      → Settled (system_run K c counters w0 xs)
      → Settled (system_run K c counters w0 (x ∷ xs))
  tick-Settled x xs k8s real before latched =
      let i = input_of K c x (state K c counters w0 xs) (cluster K c counters w0 xs) in
      let (m, res) = told c.loop (state K c counters w0 xs) i in
      elim (Bool-cases (switches c.loop i res)) [
        | inl sw ↦
            let (attempted, quiet) =
              latching-quiet K c counters w0 x (state K c counters w0 xs)
                (cluster K c counters w0 xs) res k8s sw in
            let done =
              switch-converges K L (actuator_config c) x.stamp (cluster K c counters w0 xs) real
                quiet in
            let moved : cluster K c counters w0 (x ∷ xs)
                ≡ (switch K (actuator_config c) x.stamp (cluster K c counters w0 xs)).1 =
              ground (arith, tick-cluster K c counters w0 x xs, attempted) in
            rw moved (done.0, λ fresh. done.1)
        | inr held ↦
            let (latch, unlatched) = tick-latch K c counters w0 x xs in
            let earlier : (state K c counters w0 xs).machine.switched ≡ true =
              ground (arith, latch, latched, held) in
            let same : cluster K c counters w0 (x ∷ xs) ≡ cluster K c counters w0 xs =
              ground (arith, tick-cluster K c counters w0 x xs, unlatched, earlier) in
            rw same (before earlier)
      ]

  run-Settled :
      (xs : List Surroundings)
      → c.loop.actuators.k8s ≡ true
      → c.loop.dry_run ≡ false
      → (c.loop.machine.already_switched ≡ true → AllSwitched K c w0)
      → Settled (system_run K c counters w0 xs)
  run-Settled [] k8s real adopted = λ latched.
      unfold system_run in
      (
        adopted (sym (start-latch K c counters w0) ∙ latched),
        λ fresh. absurd (ground (arith, start-latch K c counters w0, latched)),
      )
  run-Settled (x ∷ xs) k8s real adopted =
      tick-Settled x xs k8s real (run-Settled xs k8s real adopted)

  -- Over an API that keeps its laws, with the Kubernetes actuator on and outside a dry run: in every
  -- run of the system whose machine is latched, every target ConfigMap holds the secondary, and
  -- every target Deployment carries its stamp unless the machine started out latched. A machine that
  -- starts out latched is taken to find the ConfigMaps on the secondary.
  pub run-delivered :
      (xs : List Surroundings)
      → c.loop.actuators.k8s ≡ true
      → c.loop.dry_run ≡ false
      → (c.loop.machine.already_switched ≡ true → AllSwitched K c w0)
      → (state K c counters w0 xs).machine.switched ≡ true
      → AllSwitched K c (cluster K c counters w0 xs)
        × ((c.loop.machine.already_switched ≡ true) ⊎ AllStamped K c (cluster K c counters w0 xs))
  run-delivered xs k8s real adopted latched =
      let (targets, stamps) = run-Settled xs k8s real adopted latched in
      (
        targets,
        elim (Bool-cases c.loop.machine.already_switched) [
          | inl already ↦ inl already
          | inr fresh ↦ inr (stamps fresh)
        ],
      )

  -- A tick leaves the cluster as it was, unless it attempts the switch: then the verdict is DOWN, no
  -- switch was recorded before, a secondary is configured, reachable and not DOWN, and every healthy
  -- verdict lies at least the failover delay back, on a clock that never ran backwards and with a
  -- failover delay that is a duration and not negative.
  pub run-leaves :
      (xs : List Surroundings) (x : Surroundings)
      → let i = input_of K c x (state K c counters w0 xs) (cluster K c counters w0 xs) in
        pos 0 ≤ℤ c.loop.machine.failover_delay
        → c.loop.machine.failover_delay ≤ℤ max_duration
        → IsOrdered i.observed_at (history c.loop counters (inputs K c counters w0 xs))
        → (cluster K c counters w0 (x ∷ xs) ≡ cluster K c counters w0 xs)
          ⊎ ((is_down (tick_report c.loop (state K c counters w0 xs) i).status ≡ true)
              × ((state K c counters w0 xs).machine.switched ≡ false)
              × (is_nil c.loop.secondary ≡ false)
              × (c.loop.secondary_prober ≡ true)
              × (secondary_ready (secondary_status c.loop i) ≡ true)
              × HealthyLongAgo c.loop.machine.failover_delay i.observed_at
                  (history c.loop counters (inputs K c counters w0 xs)))
  run-leaves xs x low high ordered =
      let i = input_of K c x (state K c counters w0 xs) (cluster K c counters w0 xs) in
      elim (Bool-cases (attempts c.loop i (told c.loop (state K c counters w0 xs) i).1)) [
        | inr quiet ↦ inl (ground (arith, tick-cluster K c counters w0 x xs, quiet))
        | inl attempted ↦
            let p = attempt-patient c.loop counters (inputs K c counters w0 xs) i low high ordered (
              ap (λ s. attempts c.loop i (told c.loop s i).1) (sym (state-run K c counters w0 xs))
              ∙ attempted) in
            inr (
              ap (λ s. is_down (tick_report c.loop s i).status) (state-run K c counters w0 xs)
                  ∙ p.0,
              (tick-latch K c counters w0 x xs).1 attempted,
              p.2,
              p.3,
              p.4,
              p.5,
            )
      ]
