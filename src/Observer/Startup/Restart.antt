-- ===== src/Observer/Startup/Restart.antt =====
-- A restart of the observer after its switch (cmd/svchealthcheck/main.go).
use couchbase_health_observe.Prelude.{
  true, false, ◌≡◌, refl, [], ap, sym, ◌∙◌, List, Option, is_nil, arith,
}
use couchbase_health_observe.Prelude.Boot.{passed}
use couchbase_health_observe.Actuator.Types.{Ref, Config, has_ref}
use couchbase_health_observe.Actuator.Kube.{Kube, IsLawful, SameServer}
use couchbase_health_observe.Actuator.Refs.{parse_refs, parse_refs_required}
use couchbase_health_observe.Actuator.Switch.Reads.{on_secondary}
use couchbase_health_observe.Observer.Switching.{Counters}
use couchbase_health_observe.Observer.Reconcile.{
  all_read, reconcile_already_switched, reconcile_complete,
}
use couchbase_health_observe.Observer.System.{SystemConfig, Surroundings}
use couchbase_health_observe.Observer.System.Ticks.{AllSwitched, state, cluster, start-latch}
use couchbase_health_observe.Observer.System.Delivered.{run-delivered}
use couchbase_health_observe.Observer.Startup.{
  Flags, Outside, StartLine, looping, start_up, system_config, reconcile_config, find_targets,
  Notifier,
}
use couchbase_health_observe.Observer.Startup.Adoption.{
  find_targets-on, prepare_loop-Found, start_up-looping, start_up-Adopts,
}

module _ (K : Kube) (L : IsLawful K) (f : Flags) (o : Outside) where
  -- What the reconcile reads, by the flags.
  abbrev asked : Config
  asked =
      reconcile_config K f o (parse_refs_required f.config_map f.namespace).0
        (parse_refs f.deployments f.namespace).0

  start_up-asked :
      (s : List StartLine × K.World) (c : SystemConfig) (n : Option Notifier)
      → (start_up K f o s).0 ≡ passed (looping c n)
      → c.loop.actuators.k8s ≡ true
      → (c.loop.config_maps ≡ asked.config_maps)
        × (c.config_key ≡ f.config_key)
        × (c.loop.secondary ≡ f.secondary)
        × (c.loop.machine.already_switched ≡ (reconcile_already_switched K asked s.1).0.0)
  unfolding system_config
  start_up-asked s c n e k8s =
      let (acts, inputs, sec, s3, world, same) = start_up-looping K L f o s c n e in
      let (t, found, moved, (prober, made)) =
        prepare_loop-Found K L f o acts inputs sec s3 c n (sym (ap (λ r. r.0) same) ∙ e) in
      let on : acts.k8s ≡ true = sym (ap (λ d. d.loop.actuators.k8s) made) ∙ k8s in
      let on_found = sym (ap (λ b. (find_targets K f o b s3).0) on) ∙ found in
      let (quiet, targets, after) = find_targets-on K L f o s3 t on_found in
      rw made (
        ap (λ u. u.config_maps) targets,
        refl,
        refl,
        ap (λ u. u.already_switched) targets
            ∙ ap (λ w. (reconcile_already_switched K asked w).0.0) world,
      )

  -- The secondary in every target ConfigMap is the same for two loops that one setting gave.
  AllSwitched-asked :
      (c : SystemConfig) (w : K.World)
      → c.loop.config_maps ≡ asked.config_maps
      → c.config_key ≡ f.config_key
      → c.loop.secondary ≡ f.secondary
      → AllSwitched K c w
      → (r : Ref) → has_ref asked.config_maps r ≡ true
      → on_secondary K asked w r ≡ true
  AllSwitched-asked c w maps key conn all r m = ground (arith, all r, maps, key, conn, m)

  -- Over an API that keeps its laws, with the Kubernetes actuator on, a secondary given, and outside
  -- a dry run: if a run of the loop has a latched machine and the observer is started again with the
  -- same flags and the same answers from outside, on the cluster that the run left, then a startup
  -- that gets through to the loop, and whose reads of the ConfigMaps all answer, adopts the switch and
  -- writes nothing. The new machine is latched from its start.
  pub restart-adopts :
      (s s' : List StartLine × K.World) (c c' : SystemConfig) (n n' : Option Notifier)
      (counters counters' : Counters) (xs : List Surroundings)
      → (start_up K f o s).0 ≡ passed (looping c n)
      → c.loop.actuators.k8s ≡ true
      → f.dry_run ≡ false
      → is_nil f.secondary ≡ false
      → (state K c counters (start_up K f o s).1.1 xs).machine.switched ≡ true
      → s'.1 ≡ cluster K c counters (start_up K f o s).1.1 xs
      → (start_up K f o s').0 ≡ passed (looping c' n')
      → c'.loop.actuators.k8s ≡ true
      → all_read K c'.loop.config_maps s'.1 ≡ true
      → let w' = (start_up K f o s').1.1 in
        (c'.loop.machine.already_switched ≡ true)
        × ((state K c' counters' w' []).machine.switched ≡ true)
        × SameServer K w' s'.1
  restart-adopts s s' c c' n n' counters counters' xs e k8s real given latched left e' k8s'
        answers =
      let (unwritten, adopted, some_target, dry) = start_up-Adopts K L f o s c n e in
      let (unwritten', adopted', some_target', dry') = start_up-Adopts K L f o s' c' n' e' in
      let (maps, key, conn, already) = start_up-asked s c n e k8s in
      let (maps', key', conn', already') = start_up-asked s' c' n' e' k8s' in
      let delivered =
        run-delivered K L c counters (start_up K f o s).1.1 xs k8s (dry ∙ real) adopted latched in
      let found =
        reconcile_complete K L asked s'.1 (ground (arith, given, some_target k8s, maps))
          (ap (λ refs. all_read K refs s'.1) (sym maps') ∙ answers)
          (λ r m.
            ap (λ w. on_secondary K asked w r) left
            ∙ AllSwitched-asked c (cluster K c counters (start_up K f o s).1.1 xs) maps key conn
                delivered.0 r m) in
      (
        already' ∙ found,
        start-latch K c' counters' (start_up K f o s').1.1 ∙ already' ∙ found,
        unwritten',
      )
