-- ===== src/Actuator/Crash/Retry.antt =====
-- A switch that stopped after any number of its calls, and the next one (pkg/actuator/k8s.go).
use couchbase_health_observe.Prelude.{
  ℕ, Bool, true, false, not, ◌||◌, ◌≡◌, ◌≢◌, refl, sym, List, [], ◌∷◌, Str, str_eq, str_eq_iff,
  arith, Bool-cases, inl, inr, ◌⊎◌,
}
use couchbase_health_observe.Actuator.Types.{Ref, Config, ref_eq_iff, has_ref, Error}
use couchbase_health_observe.Actuator.Kube.{Answer-cases, Kube, IsLawful}
use couchbase_health_observe.Actuator.Switch.{
  PatchLedger, empty_ledger, patch_config_maps, stamp_deployment, roll_found, roll_one,
  roll_deployments, switch,
}
use couchbase_health_observe.Actuator.Switch.Reads.{
  on_secondary, stamped, rolled_to, rolled_to-carries,
}
use couchbase_health_observe.Actuator.Switch.Frame.{patch_config_maps-deployment}
use couchbase_health_observe.Actuator.Switch.Calm.{switch-calm}
use couchbase_health_observe.Actuator.Switch.Outcome.{switch-spares, switch-converges}
use couchbase_health_observe.Actuator.Crash.{mortal, with_calls}
use couchbase_health_observe.Actuator.Crash.Laws.{mortal-IsLawful}

-- What a switch leaves of a Deployment is what was there, or carries the stamp.
module _ (K : Kube) (L : IsLawful K) (cfg : Config) (led : PatchLedger) (stamp : Str) where
  roll_one-writes :
      (ref : Ref) (acc : ℕ × List Error) (w : K.World) (d : Ref)
      → let w' = (roll_one K cfg led stamp ref acc w).1 in
        (K.deployment w' d ≡ K.deployment w d) ⊎ (stamped K cfg w' d ≡ true)
  unfolding roll_one roll_found stamp_deployment
  roll_one-writes ref (rolled, errs) w s =
      let after = (K.get_deployment ref w).1 in
      elim (Answer-cases (K.get_deployment ref w).0) [
        | inl (d, e) ↦ ground (
          arith,
          (L.get_deployment_keeps ref w).1 s,
          ref_eq_iff ref s,
          L.update_deployment_other ref (rolled_to cfg stamp d) after s,
          L.update_deployment_any ref (rolled_to cfg stamp d) after,
          rolled_to-carries cfg stamp d,
        )
        | inr (x, e) ↦ ground (arith, (L.get_deployment_keeps ref w).1 s)
      ]

  roll_deployments-writes :
      (refs : List Ref) (acc : ℕ × List Error) (w : K.World) (d : Ref)
      → let w' = (roll_deployments K cfg led stamp refs acc w).1 in
        (K.deployment w' d ≡ K.deployment w d) ⊎ (stamped K cfg w' d ≡ true)
  unfolding roll_deployments
  roll_deployments-writes [] acc w d = inl refl
  roll_deployments-writes (ref ∷ refs) acc w d =
      let (acc', w') = roll_one K cfg led stamp ref acc w in
      ground (arith, roll_one-writes ref acc w d, roll_deployments-writes refs acc' w' d)

switch-writes :
    (K : Kube) (L : IsLawful K) (cfg : Config) (stamp : Str) (w : K.World) (d : Ref)
    → let w' = (switch K cfg stamp w).1 in
      (K.deployment w' d ≡ K.deployment w d) ⊎ (stamped K cfg w' d ≡ true)
unfolding switch
switch-writes K L cfg stamp w d =
    let (led, w1) = patch_config_maps K cfg cfg.config_maps empty_ledger w in
    ground (
      arith,
      patch_config_maps-deployment K L cfg cfg.config_maps empty_ledger w d,
      roll_deployments-writes K L cfg led stamp cfg.deployments (0, []) w1 d,
    )

-- Every target of a namespace holds the secondary.
abbrev pub Held : (K : Kube) → Config → K.World → Str → Type 0
Held K cfg w ns =
    (c : Ref) → has_ref cfg.config_maps c ≡ true → c.namespace ≡ ns → on_secondary K cfg w c ≡ true

Held-cases :
    (p : Ref → Bool) (refs : List Ref) (ns : Str)
    → ((c : Ref) → has_ref refs c ≡ true → c.namespace ≡ ns → p c ≡ true)
      ⊎ ((c : Ref) × (has_ref refs c ≡ true) × (c.namespace ≡ ns) × (p c ≡ false))
unfolding has_ref
Held-cases p [] ns = inl (λ c m same. cc)
Held-cases p (r ∷ refs) ns = elim (Held-cases p refs ns) [
  | inr (c, m, same, stuck) ↦ inr (c, ground arith, same, stuck)
  | inl held ↦ elim (Bool-cases (not (str_eq r.namespace ns) || p r)) [
    | inl here ↦ inl (λ c m same. ground (arith, ref_eq_iff r c, str_eq_iff r.namespace ns, held c))
    | inr stuck ↦
        inr (
          r,
          ground (arith, ref_eq_iff r r),
          ground (arith, str_eq_iff r.namespace ns),
          ground arith,
        )
  ]
]

module _ (K : Kube) (L : IsLawful K) (cfg : Config) (first again : Str) (n : ℕ) (w : K.World)
    (d : Ref) where
  abbrev crashed : K.World
  crashed = (switch (mortal K) cfg first (with_calls n w)).1.world

  -- Over an API that keeps its laws, where a switch stopped after any number of its calls and
  -- another follows, at most one of the two changes a given Deployment; the first does so only once
  -- every target ConfigMap of the namespace holds the secondary.
  pub crash-once :
      (K.deployment crashed d ≡ K.deployment w d)
      ⊎ (Held K cfg crashed d.namespace
          × (K.deployment (switch K cfg again crashed).1 d ≡ K.deployment crashed d))
  crash-once =
      let m = mortal-IsLawful K L in
      elim (Held-cases (on_secondary K cfg crashed) cfg.config_maps d.namespace) [
        | inr (c, target, same, stuck) ↦
            inl (switch-spares (mortal K) m cfg first (with_calls n w) c d target (sym same) stuck)
        | inl held ↦ elim (switch-writes (mortal K) m cfg first (with_calls n w) d) [
          | inl kept ↦ inl kept
          | inr carried ↦ inr (held, switch-calm K L cfg again crashed d held carried)
        ]
      ]

  -- Over an API that keeps its laws, outside a dry run, where a switch stopped after any number of
  -- its calls and the next one returns no error, a target Deployment that carried no stamp before
  -- the two carries it after them, every target ConfigMap of its namespace holds the secondary, and
  -- one of the two switches left the Deployment alone: it was restarted once.
  pub crash-recovers :
      cfg.dry_run ≡ false
      → has_ref cfg.deployments d ≡ true
      → stamped K cfg w d ≡ false
      → (switch K cfg again crashed).0.1 ≡ []
      → let final = (switch K cfg again crashed).1 in
        (K.deployment final d ≢ K.deployment w d)
        × (stamped K cfg final d ≡ true)
        × Held K cfg final d.namespace
        × ((K.deployment crashed d ≡ K.deployment w d)
            ⊎ (K.deployment final d ≡ K.deployment crashed d))
  crash-recovers real target fresh quiet =
      let final = (switch K cfg again crashed).1 in
      let (held, carried) = switch-converges K L cfg again crashed real quiet in
      let now = carried d target in
      (λ e. ground arith, now, λ c m same. held c m, ground (arith, crash-once))
