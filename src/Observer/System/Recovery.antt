-- ===== src/Observer/System/Recovery.antt =====
-- The system carries an outage's switch out once the API answers (cmd/svchealthcheck, pkg/actuator, pkg/notify).
use couchbase_health_observe.Prelude.{
  true, false, ◌||◌, ◌&&◌, ◌≡◌, ◌≢◌, ◌⊎◌, refl, ◌++◌, Bool-cases, inl, inr, ap, sym, ◌∙◌, List, [],
  ◌∷◌, some, is_nil, arith,
}
use couchbase_health_observe.Prelude.Int.{ℤ, pos, ◌≤ℤ◌, ◌-ℤ◌}
use couchbase_health_observe.Svchealth.Types.{down}
use couchbase_health_observe.Actuator.Kube.{Kube, IsLawful}
use couchbase_health_observe.Actuator.Types.{Ref, has_ref}
use couchbase_health_observe.Actuator.Switch.{switch}
use couchbase_health_observe.Actuator.Switch.Reads.{on_secondary, stamped}
use couchbase_health_observe.Actuator.Switch.Outcome.{switch-spares}
use couchbase_health_observe.Observer.Loop.Latch.{told}
use couchbase_health_observe.Failover.Machine.Clock.{max_duration}
use couchbase_health_observe.Failover.History.{down_since, has_mark}
use couchbase_health_observe.Failover.History.{replay}
use couchbase_health_observe.Failover.History.Decision.{observe-replay}
use couchbase_health_observe.Observer.Switching.{Counters, may_latch}
use couchbase_health_observe.Observer.Reconcile.{secondary_ready}
use couchbase_health_observe.Observer.Loop.State.{secondary}
use couchbase_health_observe.Observer.Loop.{
  attempts, tick_report, secondary_status, act_answer, notify_answer,
}
use couchbase_health_observe.Observer.Loop.Runs.{history, run-replay}
use couchbase_health_observe.Observer.Loop.Safety.{run-switches}
use couchbase_health_observe.Observer.System.{
  SystemConfig, Surroundings, actuator_config, input_of, system_run,
}
use couchbase_health_observe.Observer.System.Ticks.{
  AllSwitched, AllStamped, observe-latch, state, cluster, inputs, state-run, input_of-act,
  tick-cluster,
}
use couchbase_health_observe.Observer.System.Delivered.{run-delivered}

module _ (K : Kube) (c : SystemConfig) (counters : Counters) (w0 : K.World) where
  -- A machine that is not latched was told of no switch.
  unmarked :
      (xs : List Surroundings) (t : ℤ)
      → (state K c counters w0 xs).machine.switched ≡ false
      → (c.loop.machine.already_switched
          || has_mark (history c.loop counters (inputs K c counters w0 xs)))
        ≡ false
  unmarked xs t unlatched =
      let h = history c.loop counters (inputs K c counters w0 xs) in
      let machine : (state K c counters w0 xs).machine ≡ replay c.loop.machine h =
        ap (λ s. s.machine) (state-run K c counters w0 xs)
        ∙ run-replay c.loop counters (inputs K c counters w0 xs) in
      sym (observe-replay c.loop.machine h t down).1
      ∙ (observe-latch (replay c.loop.machine h) t down).0
      ∙ ap (λ m. m.switched) (sym machine)
      ∙ unlatched

  success :
      (xs : List Surroundings) (x : Surroundings)
      → let i = input_of K c x (state K c counters w0 xs) (cluster K c counters w0 xs) in
        c.loop.actuators.k8s ≡ true
        → (switch K (actuator_config c) x.stamp (cluster K c counters w0 xs)).0.1 ≡ []
        → may_latch (act_answer c.loop i) (notify_answer c.loop i) ≡ true
  success xs x k8s quiet = ground (
    arith,
    input_of-act K c counters w0 x (state K c counters w0 xs) (cluster K c counters w0 xs),
  )

module _ (K : Kube) (L : IsLawful K) (c : SystemConfig) (counters : Counters) (w0 : K.World) where
  -- A tick of the run changed the Deployment, and left every target ConfigMap of its namespace on
  -- the secondary: the pods that it starts read the new connection.
  abbrev pub Restarted : Ref → List Surroundings → Type 0
  Restarted d xs =
      (newer : List Surroundings) × (x : Surroundings) × (older : List Surroundings) × (xs
        ≡ newer ++ (x ∷ older))
      × (K.deployment (cluster K c counters w0 (x ∷ older)) d
          ≢ K.deployment (cluster K c counters w0 older) d)
      × ((r : Ref)
          → has_ref c.loop.config_maps r ≡ true
          → r.namespace ≡ d.namespace
          → on_secondary K (actuator_config c) (cluster K c counters w0 (x ∷ older)) r ≡ true)

  -- A tick that changes a Deployment is a switch, and has its ConfigMaps in place.
  tick-places :
      (x : Surroundings) (xs : List Surroundings) (d r : Ref)
      → K.deployment (cluster K c counters w0 (x ∷ xs)) d
        ≢ K.deployment (cluster K c counters w0 xs) d
      → has_ref c.loop.config_maps r ≡ true
      → r.namespace ≡ d.namespace
      → on_secondary K (actuator_config c) (cluster K c counters w0 (x ∷ xs)) r ≡ true
  tick-places x xs d r moved target same =
      let w = cluster K c counters w0 xs in
      let i = input_of K c x (state K c counters w0 xs) w in
      let tried =
        attempts c.loop i (told c.loop (state K c counters w0 xs) i).1 && c.loop.actuators.k8s in
      elim (Bool-cases tried) [
        | inr idle ↦
            let kept : cluster K c counters w0 (x ∷ xs) ≡ w =
              ground (arith, tick-cluster K c counters w0 x xs, idle) in
            absurd (moved (ap (λ v. K.deployment v d) kept))
        | inl called ↦
            let after : cluster K c counters w0 (x ∷ xs)
                ≡ (switch K (actuator_config c) x.stamp w).1 =
              ground (arith, tick-cluster K c counters w0 x xs, called) in
            elim (Bool-cases
              (on_secondary K (actuator_config c) (cluster K c counters w0 (x ∷ xs)) r)) [
                | inl held ↦ held
                | inr stuck ↦ absurd (
                    moved (
                      ap (λ v. K.deployment v d) after
                      ∙ switch-spares K L (actuator_config c) x.stamp w r d target (sym same)
                          (ap (λ v. on_secondary K (actuator_config c) v r) (sym after) ∙ stuck)))
              ]
      ]

  -- A Deployment that came to carry the stamp in a run was restarted in it.
  run-Restarted :
      (xs : List Surroundings) (d : Ref)
      → stamped K (actuator_config c) w0 d ≡ false
      → stamped K (actuator_config c) (cluster K c counters w0 xs) d ≡ true
      → Restarted d xs
  unfolding system_run
  run-Restarted [] d fresh carried = absurd (ground (arith, fresh, carried))
  run-Restarted (x ∷ xs) d fresh carried =
      elim (Bool-cases (stamped K (actuator_config c) (cluster K c counters w0 xs) d)) [
        | inl earlier ↦
            let (newer, y, older, split, moved, placed) = run-Restarted xs d fresh earlier in
            (x ∷ newer, y, older, ap (λ l. x ∷ l) split, moved, placed)
        | inr before ↦
            let moved : K.deployment (cluster K c counters w0 (x ∷ xs)) d
                ≢ K.deployment (cluster K c counters w0 xs) d =
              λ e. ground (arith, before, carried, e) in
            ([], x, xs, refl, moved, λ r target same. tick-places x xs d r moved target same)
      ]

  -- Over an API that keeps its laws, with the Kubernetes actuator on and outside a dry run: a DOWN
  -- verdict that comes the failover delay or more after the first of its outage completes the switch,
  -- if the switch of that tick meets no error, a secondary is configured and not DOWN, and no switch
  -- was recorded before. Every target ConfigMap then holds the secondary, every target Deployment
  -- carries its stamp, the machine is latched and the secondary is probed; and every target
  -- Deployment that carried no stamp when the run began was restarted by a tick of the run that left
  -- every target ConfigMap of its namespace on the secondary. Of a Deployment that began with the
  -- stamp of an earlier switch, no restart is told: the switch can pass it over. The failover delay
  -- is a duration and not negative. Nothing is asked of the webhook, nor of the ticks before, whose
  -- switches may have failed.
  pub run-recovers :
      (xs : List Surroundings) (x : Surroundings) (since : ℤ)
      → let i = input_of K c x (state K c counters w0 xs) (cluster K c counters w0 xs) in
        c.loop.actuators.k8s ≡ true
        → c.loop.dry_run ≡ false
        → pos 0 ≤ℤ c.loop.machine.failover_delay
        → c.loop.machine.failover_delay ≤ℤ max_duration
        → (tick_report c.loop (state K c counters w0 xs) i).status ≡ down
        → down_since (history c.loop counters (inputs K c counters w0 xs)) ≡ some since
        → c.loop.machine.failover_delay ≤ℤ i.observed_at -ℤ since
        → (state K c counters w0 xs).machine.switched ≡ false
        → is_nil c.loop.secondary ≡ false
        → secondary_ready (secondary_status c.loop i) ≡ true
        → (switch K (actuator_config c) x.stamp (cluster K c counters w0 xs)).0.1 ≡ []
        → let w' = cluster K c counters w0 (x ∷ xs) in
          AllSwitched K c w'
          × AllStamped K c w'
          × ((state K c counters w0 (x ∷ xs)).machine.switched ≡ true)
          × ((state K c counters w0 (x ∷ xs)).prober ≡ secondary)
          × ((d : Ref)
              → has_ref c.loop.deployments d ≡ true
              → (stamped K (actuator_config c) w0 d ≡ true) ⊎ Restarted d (x ∷ xs))
  unfolding inputs
  run-recovers xs x since k8s real low high verdict outage late unlatched configured ready quiet =
      let i = input_of K c x (state K c counters w0 xs) (cluster K c counters w0 xs) in
      let fresh = unmarked K c counters w0 xs i.observed_at unlatched in
      let (latched, moved) =
        run-switches c.loop counters (inputs K c counters w0 xs) i since low high
          (ap (λ s. (tick_report c.loop s i).status) (sym (state-run K c counters w0 xs)) ∙ verdict)
          outage late fresh configured ready (success K c counters w0 xs x k8s quiet) in
      let here = state-run K c counters w0 (x ∷ xs) in
      let now_latched = ap (λ s. s.machine.switched) here ∙ latched in
      let (targets, stamps) =
        run-delivered K L c counters w0 (x ∷ xs) k8s real
          (λ adopted. absurd (ground (arith, fresh, adopted))) now_latched in
      let all : AllStamped K c (cluster K c counters w0 (x ∷ xs)) = elim stamps [
        | inl adopted ↦ absurd (ground (arith, fresh, adopted))
        | inr all ↦ all
      ] in
      (
        targets,
        all,
        now_latched,
        ap (λ s. s.prober) here ∙ moved real,
        λ d target. elim (Bool-cases (stamped K (actuator_config c) w0 d)) [
          | inl began ↦ inl began
          | inr bare ↦ inr (run-Restarted (x ∷ xs) d bare (all d target))
        ],
      )
