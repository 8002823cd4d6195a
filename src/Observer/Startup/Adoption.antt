-- ===== src/Observer/Startup/Adoption.antt =====
-- What startup finds of the switch of a prior instance (cmd/svchealthcheck/main.go).
use couchbase_health_observe.Prelude.Boot.{passed, Checked-cases}
use couchbase_health_observe.Prelude.{
  Option, Bool, true, false, ◌≡◌, refl, ap, sym, ◌∙◌, List, [], ◌∷◌, ◌++◌, none, is_nil, arith, inl,
  inr,
}
use couchbase_health_observe.Tls.{SecurityConfig}
use couchbase_health_observe.Actuator.Types.{Ref, has_ref}
use couchbase_health_observe.Actuator.Kube.{Kube, IsLawful, SameServer}
use couchbase_health_observe.Actuator.Switch.Reads.{on_secondary, holds}
use couchbase_health_observe.Actuator.Refs.Parsing.{parse_refs-AreTargets}
use couchbase_health_observe.Actuator.Refs.{parse_refs, parse_refs_required}
use couchbase_health_observe.Observer.Actuators.{Actuators, any}
use couchbase_health_observe.Observer.Reconcile.{reconcile_already_switched, reconcile_sound}
use couchbase_health_observe.Observer.System.{SystemConfig}
use couchbase_health_observe.Observer.System.Ticks.{AllSwitched}
use couchbase_health_observe.Observer.Startup.{
  WebhookInputs, Notifier, Flags, Outside, StartLine, startup, mode_label, Targets, looping,
  reconcile_config, check_flags, must_k8s_client, connect_primary, find_targets, prepare_loop,
  start_up, system_config, connect_secondary,
}
use couchbase_health_observe.Observer.Startup.Checks.{
  check_flags-accepted, connect_primary-accepted,
}

module _ (K : Kube) (L : IsLawful K) (f : Flags) (o : Outside) where
  -- The targets that are found, in a world where nothing was written.
  record Found (w w' : K.World) (on : Bool) (t : Targets) : Type 0 where
    unwritten : SameServer K w' w
    adopted :
        t.already_switched ≡ true
        → (r : Ref) → has_ref t.config_maps r ≡ true
        → on_secondary K (reconcile_config K f o t.config_maps t.deployments) w' r ≡ true
    some_target : on ≡ true → is_nil t.config_maps ≡ false

  reconciled :
      (config_maps deployments : List Ref) (w : K.World)
      → let cfg = reconcile_config K f o config_maps deployments in
        let ((already, stale), w') = reconcile_already_switched K cfg w in
        SameServer K w' w
        × (already ≡ true
            → (r : Ref) → has_ref config_maps r ≡ true
            → on_secondary K cfg w' r ≡ true)
  reconciled config_maps deployments w =
      let cfg = reconcile_config K f o config_maps deployments in
      let sound = reconcile_sound K L cfg w in
      (sound.0, λ already r m. ap (holds K cfg) (sound.0.0 r) ∙ (sound.1 already).2 r m)

  -- The targets that pass are those of the flags, and the world after them is the reconcile's.
  pub find_targets-on :
      (s : List StartLine × K.World) (t : Targets)
      → let (config_maps, err) = parse_refs_required f.config_map f.namespace in
        let (deployments, err') = parse_refs f.deployments f.namespace in
        let cfg = reconcile_config K f o config_maps deployments in
        let ((already, stale), w') = reconcile_already_switched K cfg s.1 in
        (find_targets K f o true s).0 ≡ passed t
        → (err ≡ none)
          × (t ≡ record {
            config_maps = config_maps;
            deployments = deployments;
            already_switched = already;
          })
          × ((find_targets K f o true s).1.1 ≡ w')
  unfolding find_targets
  find_targets-on s t e = (ground arith, ground arith, ground arith)

  find_targets-Found :
      (on : Bool) (s : List StartLine × K.World) (t : Targets)
      → (find_targets K f o on s).0 ≡ passed t
      → Found s.1 (find_targets K f o on s).1.1 on t
  unfolding find_targets
  find_targets-Found false s t e = record {
    unwritten = (λ r. refl, λ r. refl);
    adopted = λ already. absurd (ground arith);
    some_target = λ on. cc;
  }
  find_targets-Found true s t e =
      let config_maps = (parse_refs_required f.config_map f.namespace).0 in
      let deployments = (parse_refs f.deployments f.namespace).0 in
      let (quiet, same, world) = find_targets-on s t e in
      let sound = reconciled config_maps deployments s.1 in
      rw (same, world)
        (record {
          unwritten = sound.0;
          adopted = sound.1;
          some_target =
              λ on. ground (arith, (parse_refs-AreTargets f.config_map f.namespace).1 quiet);
        })

  pub prepare_loop-Found :
      (acts : Actuators) (inputs : WebhookInputs) (sec : SecurityConfig)
      (s : List StartLine × K.World) (c : SystemConfig) (n : Option Notifier)
      → (prepare_loop K f o acts inputs sec s).0 ≡ passed (looping c n)
      → (t : Targets) × ((find_targets K f o acts.k8s s).0 ≡ passed t)
        × ((prepare_loop K f o acts inputs sec s).1.1 ≡ (find_targets K f o acts.k8s s).1.1)
        × ((prober : Bool) × (c ≡ system_config f o acts t prober))
  unfolding prepare_loop
  prepare_loop-Found acts inputs sec s c n e =
      elim (Checked-cases (find_targets K f o acts.k8s s).0) [
        | inr (x, bad) ↦ absurd (ground (arith, bad))
        | inl (t, found) ↦ (
          t,
          found,
          ground (arith, found),
          ((connect_secondary K f o sec).0, ground (arith, found)),
        )
      ]

  -- What the loop is given, where startup gets through to it.
  abbrev Adopts : K.World → K.World → SystemConfig → Type 0
  Adopts w w' c =
      SameServer K w' w
      × (c.loop.machine.already_switched ≡ true → AllSwitched K c w')
      × (c.loop.actuators.k8s ≡ true → is_nil c.loop.config_maps ≡ false)
      × (c.loop.dry_run ≡ f.dry_run)

  prepare_loop-Adopts :
      (acts : Actuators) (inputs : WebhookInputs) (sec : SecurityConfig)
      (s : List StartLine × K.World) (c : SystemConfig) (n : Option Notifier)
      → (prepare_loop K f o acts inputs sec s).0 ≡ passed (looping c n)
      → Adopts s.1 (prepare_loop K f o acts inputs sec s).1.1 c
  unfolding system_config
  prepare_loop-Adopts acts inputs sec s c n e =
      let (t, found, world, (prober, made)) = prepare_loop-Found acts inputs sec s c n e in
      let known = find_targets-Found acts.k8s s t found in
      rw (world, made) (known.unwritten, known.adopted, known.some_target, refl)

  -- Where startup gets through to the loop, it is `prepare_loop` that did it, on the cluster that
  -- startup was given.
  pub start_up-looping :
      (s : List StartLine × K.World) (c : SystemConfig) (n : Option Notifier)
      → (start_up K f o s).0 ≡ passed (looping c n)
      → (acts : Actuators) × (inputs : WebhookInputs) × (sec : SecurityConfig) × (s3 : List
            StartLine
          × K.World)
        × (s3.1 ≡ s.1)
        × (start_up K f o s ≡ prepare_loop K f o acts inputs sec s3)
  unfolding start_up any must_k8s_client
  start_up-looping s c n e =
      let s1 = (check_flags K f o s).1 in
      let s2 = (connect_primary K f o s1).1 in
      elim (Checked-cases (check_flags K f o s).0) [
        | inr (x, bad) ↦ absurd (ground (arith, bad))
        | inl ((acts, inputs), e1) ↦ elim (Checked-cases (connect_primary K f o s1).0) [
          | inr (x, bad) ↦ absurd (ground (arith, bad))
          | inl (sec, e2) ↦
              let line = startup (mode_label K f o (any acts)) f.critical f.addr in
              (
                acts,
                inputs,
                sec,
                (s2.0 ++ (line ∷ []), s2.1),
                (connect_primary-accepted K f o s1).1 ∙ (check_flags-accepted K f o s).1,
                ground (arith, e1, e2),
              )
        ]
      ]

  pub start_up-Adopts :
      (s : List StartLine × K.World) (c : SystemConfig) (n : Option Notifier)
      → (start_up K f o s).0 ≡ passed (looping c n)
      → Adopts s.1 (start_up K f o s).1.1 c
  start_up-Adopts s c n e =
      let (acts, inputs, sec, s3, world, same) = start_up-looping s c n e in
      rw (same, sym world)
        (prepare_loop-Adopts acts inputs sec s3 c n (sym (ap (λ r. r.0) same) ∙ e))
