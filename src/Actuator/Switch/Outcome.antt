-- ===== src/Actuator/Switch/Outcome.antt =====
-- What a whole switch does to the cluster (pkg/actuator/k8s.go).
use couchbase_health_observe.Prelude.{
  ℕ, Bool, true, false, ◌&&◌, ◌≡◌, refl, List, [], ◌∷◌, ◌++◌, Str, str_eq, arith, inl, inr, is_nil,
  is_nil-append, all_of, ltb,
}
use couchbase_health_observe.Prelude.Dict.{contains}
use couchbase_health_observe.Actuator.Types.{Ref, Config, ref_eq_iff, has_ref, Error}
use couchbase_health_observe.Actuator.Kube.{Kube, SameServer, IsLawful}
use couchbase_health_observe.Actuator.Switch.{
  PatchLedger, empty_ledger, patch_config_maps, roll_deployments, switch,
}
use couchbase_health_observe.Actuator.Switch.Reads.{on_secondary, stamped}
use couchbase_health_observe.Actuator.Switch.Frame.{
  value_in, patch_config_maps-deployment, patch_config_maps-value_in, patch_config_maps-other,
  patch_config_maps-idle,
}
use couchbase_health_observe.Actuator.Switch.Patch.{
  patch_config_maps-Settled, patch_config_maps-errs,
}
use couchbase_health_observe.Actuator.Switch.Roll.{
  roll_deployments-config_map, roll_deployments-spares, roll_deployments-stamped,
  roll_deployments-idle,
}

module _ (K : Kube) (L : IsLawful K) (cfg : Config) (stamp : Str) (w : K.World) where
  abbrev patched : PatchLedger × K.World
  patched = patch_config_maps K cfg cfg.config_maps empty_ledger w

  -- Over an API that keeps its laws, a dry run writes nothing: the server holds the objects that it
  -- held before.
  switch-dry_run : cfg.dry_run ≡ true → SameServer K (switch K cfg stamp w).1 w
  unfolding switch
  switch-dry_run dry = (
    λ s. ground (arith, patch_config_maps-other K L cfg cfg.config_maps empty_ledger w s (inl dry)),
    λ s. ground (arith, patch_config_maps-deployment K L cfg cfg.config_maps empty_ledger w s),
  )

  abbrev rolled : (ℕ × List Error) × K.World
  rolled = roll_deployments K cfg patched.0 stamp cfg.deployments (0, []) patched.1

  -- Outside a dry run, and with a ConfigMap to patch, a switch is the two phases.
  switch-phases :
      cfg.dry_run ≡ false
      → is_nil cfg.config_maps ≡ false
      → let err = patched.0.errs ++ rolled.0.1 in
        switch K cfg stamp w ≡ ((is_nil err && ltb 0 patched.0.pending, err), rolled.1)
  unfolding switch
  switch-phases real some_target = ground arith

  switch-targets : (switch K cfg stamp w).0.1 ≡ [] → is_nil cfg.config_maps ≡ false
  unfolding switch
  switch-targets quiet = ground arith

  patched-errs : is_nil patched.0.errs ≡ is_nil patched.0.failed_ns
  patched-errs =
      patch_config_maps-errs K L cfg cfg.config_maps empty_ledger w (unfold empty_ledger in refl)

  -- No error at all: neither phase told one.
  quiet_phases :
      cfg.dry_run ≡ false
      → (switch K cfg stamp w).0.1 ≡ []
      → (is_nil patched.0.failed_ns ≡ true) × (is_nil rolled.0.1 ≡ true)
  quiet_phases real quiet = ground (
    arith,
    switch-phases real (switch-targets quiet),
    patched-errs,
    is_nil-append patched.0.errs rolled.0.1,
  )

  unmarked :
      (ns : Str) → is_nil patched.0.failed_ns ≡ true → contains patched.0.failed_ns ns ≡ false
  unfolding contains
  unmarked ns h = ground arith

  -- Over an API that keeps its laws, a switch that returns no error, outside a dry run, has
  -- converged: every target ConfigMap holds the secondary, and every target Deployment carries its
  -- stamp.
  pub switch-converges :
      cfg.dry_run ≡ false
      → (switch K cfg stamp w).0.1 ≡ []
      → ((r : Ref)
          → has_ref cfg.config_maps r ≡ true
          → on_secondary K cfg (switch K cfg stamp w).1 r ≡ true)
        × ((r : Ref)
            → has_ref cfg.deployments r ≡ true
            → stamped K cfg (switch K cfg stamp w).1 r ≡ true)
  switch-converges real quiet =
      let phases = switch-phases real (switch-targets quiet) in
      let silent = quiet_phases real quiet in
      rw phases (
        λ r m. ground (
          arith,
          silent,
          unmarked r.namespace,
          patch_config_maps-Settled K L cfg cfg.config_maps empty_ledger w r real m,
          roll_deployments-config_map K L cfg patched.0 stamp cfg.deployments (0, []) patched.1 r,
        ),
        λ r m.
            roll_deployments-stamped K L cfg patched.0 stamp cfg.deployments (0, []) patched.1 r
              (unmarked r.namespace silent.0) silent.1 m,
      )

  -- Over an API that keeps its laws, where every target ConfigMap holds the secondary and every
  -- target Deployment carries its stamp, a switch changes nothing on the server, and does not
  -- report that it switched.
  switch-idle :
      all_of (on_secondary K cfg w) cfg.config_maps ≡ true
      → all_of (stamped K cfg w) cfg.deployments ≡ true
      → ((switch K cfg stamp w).0.0 ≡ false) × SameServer K (switch K cfg stamp w).1 w
  unfolding switch
  switch-idle done carried =
      let idle = patch_config_maps-idle K L cfg cfg.config_maps empty_ledger w done in
      let nothing : (patched.0.pending ≡ 0) × (is_nil patched.0.patched_ns ≡ true) =
        unfold empty_ledger in ground (arith, idle) in
      (
        ground (arith, nothing),
        (
          λ s. ground (
            arith,
            patch_config_maps-other K L cfg cfg.config_maps empty_ledger w s (inr (inr done)),
            roll_deployments-config_map K L cfg patched.0 stamp cfg.deployments (0, []) patched.1 s,
          ),
          λ s. ground (
            arith,
            patch_config_maps-deployment K L cfg cfg.config_maps empty_ledger w s,
            roll_deployments-idle K L cfg patched.0 stamp cfg.deployments (0, []) patched.1 s
                nothing.1 (still_stamped cfg.deployments carried),
          ),
        ),
      )
    where
      still_stamped :
          (rs : List Ref)
          → all_of (stamped K cfg w) rs ≡ true
          → all_of (stamped K cfg patched.1) rs ≡ true
      still_stamped [] a = refl
      still_stamped (r ∷ rs) a = ground (
        arith,
        still_stamped rs,
        patch_config_maps-deployment K L cfg cfg.config_maps empty_ledger w r,
      )

  -- Over an API that keeps its laws, a Deployment is left as it was in every namespace where a
  -- target ConfigMap does not hold the secondary when the switch is over: it is rolled only once it
  -- can read the new connection.
  pub switch-spares :
      (c d : Ref)
      → has_ref cfg.config_maps c ≡ true
      → d.namespace ≡ c.namespace
      → on_secondary K cfg (switch K cfg stamp w).1 c ≡ false
      → K.deployment (switch K cfg stamp w).1 d ≡ K.deployment w d
  unfolding switch
  switch-spares c d m same stuck = ground (
    arith,
    stuck_marked c d m same,
    patch_config_maps-deployment K L cfg cfg.config_maps empty_ledger w d,
    roll_deployments-config_map K L cfg patched.0 stamp cfg.deployments (0, []) patched.1 c,
    roll_deployments-spares K L cfg patched.0 stamp cfg.deployments (0, []) patched.1 d,
  )
    where
      stuck_marked :
          (c d : Ref)
          → has_ref cfg.config_maps c ≡ true
          → d.namespace ≡ c.namespace
          → cfg.dry_run ≡ false
          → on_secondary K cfg patched.1 c ≡ false
          → contains patched.0.failed_ns d.namespace ≡ true
      stuck_marked c d m same real stuck =
          ground (arith, patch_config_maps-Settled K L cfg cfg.config_maps empty_ledger w c real m)

  -- Over an API that keeps its laws, whatever happens, a switch touches no object but its targets,
  -- and of a target ConfigMap no key but the configured one.
  pub switch-frame :
      ((c : Ref)
        → has_ref cfg.config_maps c ≡ false
        → K.config_map (switch K cfg stamp w).1 c ≡ K.config_map w c)
      × ((d : Ref)
          → has_ref cfg.deployments d ≡ false
          → K.deployment (switch K cfg stamp w).1 d ≡ K.deployment w d)
      × ((c : Ref) (k : Str)
          → str_eq cfg.config_key k ≡ false
          → value_in (K.config_map (switch K cfg stamp w).1 c) k ≡ value_in (K.config_map w c) k)
  unfolding switch
  switch-frame = (
    λ c out. ground (
      arith,
      patch_config_maps-other K L cfg cfg.config_maps empty_ledger w c,
      roll_deployments-config_map K L cfg patched.0 stamp cfg.deployments (0, []) patched.1 c,
    ),
    λ d out. ground (
      arith,
      patch_config_maps-deployment K L cfg cfg.config_maps empty_ledger w d,
      roll_deployments-spares K L cfg patched.0 stamp cfg.deployments (0, []) patched.1 d,
    ),
    λ c k other. ground (
      arith,
      patch_config_maps-value_in K L cfg cfg.config_maps empty_ledger w c k other,
      roll_deployments-config_map K L cfg patched.0 stamp cfg.deployments (0, []) patched.1 c,
    ),
  )

all_of-has_ref :
    (p : Ref → Bool) (refs : List Ref)
    → ((r : Ref) → has_ref refs r ≡ true → p r ≡ true)
    → all_of p refs ≡ true
unfolding has_ref
all_of-has_ref p [] h = refl
all_of-has_ref p (r ∷ refs) h =
    ground (arith, (ref_eq_iff r r).1 refl, h r, all_of-has_ref p refs (λ s m. h s (ground arith)))

-- Over an API that keeps its laws, after a switch that returned no error, outside a dry run,
-- another one changes nothing on the server and does not report that it switched: a retry restarts
-- no application.
pub switch-twice :
    (K : Kube) (L : IsLawful K) (cfg : Config) (stamp again : Str) (w : K.World)
    → cfg.dry_run ≡ false
    → (switch K cfg stamp w).0.1 ≡ []
    → let w' = (switch K cfg stamp w).1 in
      ((switch K cfg again w').0.0 ≡ false) × SameServer K (switch K cfg again w').1 w'
switch-twice K L cfg stamp again w real quiet =
    let converged = switch-converges K L cfg stamp w real quiet in
    switch-idle K L cfg again (switch K cfg stamp w).1
      (all_of-has_ref _ cfg.config_maps converged.0) (all_of-has_ref _ cfg.deployments converged.1)
