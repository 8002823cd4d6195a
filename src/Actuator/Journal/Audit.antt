-- ===== src/Actuator/Journal/Audit.antt =====
-- What the log and the errors of a whole switch tell of the cluster (pkg/actuator/k8s.go).
use couchbase_health_observe.Prelude.{
  ℕ, true, false, ◌&&◌, ◌≡◌, refl, List, [], ◌∷◌, ◌++◌, Str, arith, ltb, ◌==◌, if◌then◌else◌, ◌||◌,
  ◌⊎◌, is_some, Option-cases,
}
use couchbase_health_observe.Actuator.Types.{Ref, Config, Error}
use couchbase_health_observe.Actuator.Kube.{Kube, IsLawful}
use couchbase_health_observe.Actuator.Switch.{
  PatchLedger, empty_ledger, patch_one, patch_config_maps, roll_deployments, switch,
}
use couchbase_health_observe.Actuator.Switch.Frame.{patch_config_maps-deployment}
use couchbase_health_observe.Actuator.Switch.Roll.{roll_deployments-config_map}
use couchbase_health_observe.Actuator.Journal.{
  ActuatorLine, roll_only, patch_one_lines, repoint_lines, patch_lines, roll_lines, switch_lines,
}
use couchbase_health_observe.Actuator.Journal.Reads.{
  logged_from, logged_from-append, logged_roll, tells_roll, patch_refused, roll_refused,
  any_of-append, refuses_patch, refuses_roll,
}
use couchbase_health_observe.Actuator.Journal.Patched.{patch_config_maps-tells}
use couchbase_health_observe.Actuator.Journal.Rolled.{
  roll_deployments-tells, roll_deployments-no_from,
}

module _ (K : Kube) (cfg : Config) where
  -- The patch phase has no line of a roll.
  patch_one-no_roll :
      (ref : Ref) (w : K.World) (d : Ref) → logged_roll (patch_one_lines K cfg ref w) d ≡ false
  unfolding patch_one_lines repoint_lines
  patch_one-no_roll ref w d = ground arith

  patch_config_maps-no_roll :
      (refs : List Ref) (led : PatchLedger) (w : K.World) (d : Ref)
      → logged_roll (patch_lines K cfg refs led w) d ≡ false
  unfolding patch_lines
  patch_config_maps-no_roll [] led w d = refl
  patch_config_maps-no_roll (ref ∷ refs) led w d =
      let (led', w') = patch_one K cfg ref led w in
      let here = patch_one_lines K cfg ref w in
      ground (
        arith,
        any_of-append (tells_roll d) here (patch_lines K cfg refs led' w'),
        patch_one-no_roll ref w d,
        patch_config_maps-no_roll refs led' w' d,
      )

module _ (K : Kube) (L : IsLawful K) (cfg : Config) (stamp : Str) (w : K.World) where
  abbrev patched : PatchLedger × K.World
  patched = patch_config_maps K cfg cfg.config_maps empty_ledger w

  abbrev rolled : (ℕ × List Error) × K.World
  rolled = roll_deployments K cfg patched.0 stamp cfg.deployments (0, []) patched.1

  abbrev patches : List ActuatorLine
  patches = patch_lines K cfg cfg.config_maps empty_ledger w

  abbrev rolls : List ActuatorLine
  rolls = roll_lines K cfg patched.0 stamp cfg.deployments (0, []) patched.1

  abbrev only : List ActuatorLine
  only =
      if (patched.0.pending == 0) && ltb 0 rolled.0.0
      then roll_only rolled.0.0 cfg.secondary ∷ []
      else []

  -- The lines of a switch, as the reads see them.
  lines-from : (c : Ref) → logged_from (patches ++ (rolls ++ only)) c ≡ logged_from patches c
  lines-from c =
      unfold logged_from in
      ground (
        arith,
        logged_from-append patches (rolls ++ only) c,
        logged_from-append rolls only c,
        roll_deployments-no_from K L cfg patched.0 stamp cfg.deployments (0, []) patched.1 c,
      )

  lines-roll : (d : Ref) → logged_roll (patches ++ (rolls ++ only)) d ≡ logged_roll rolls d
  lines-roll d = ground (
    arith,
    any_of-append (tells_roll d) patches (rolls ++ only),
    any_of-append (tells_roll d) rolls only,
    patch_config_maps-no_roll K cfg cfg.config_maps empty_ledger w d,
  )

  -- Over an API that keeps its laws, a switch changes no object unseen: a ConfigMap is as it was, or
  -- a line tells its patch, or an error its refused update; and a Deployment is as it was, or a line
  -- tells its roll, or an error its refused roll.
  pub switch-audited :
      (c d : Ref)
      → let w' = (switch K cfg stamp w).1 in
        let lines = switch_lines K cfg stamp w in
        let errs = (switch K cfg stamp w).0.1 in
        ((K.config_map w' c ≡ K.config_map w c)
          ⊎ ((is_some (logged_from lines c) || patch_refused errs c) ≡ true))
        × ((K.deployment w' d ≡ K.deployment w d)
            ⊎ ((logged_roll lines d || roll_refused errs d) ≡ true))
  unfolding switch switch_lines
  switch-audited c d = (
    ground (
      arith,
      lines-from c,
      Option-cases (logged_from patches c),
      any_of-append (refuses_patch c) patched.0.errs rolled.0.1,
      patch_config_maps-tells K L cfg cfg.config_maps empty_ledger w c,
      roll_deployments-config_map K L cfg patched.0 stamp cfg.deployments (0, []) patched.1 c,
    ),
    ground (
      arith,
      lines-roll d,
      any_of-append (refuses_roll d) patched.0.errs rolled.0.1,
      patch_config_maps-deployment K L cfg cfg.config_maps empty_ledger w d,
      roll_deployments-tells K L cfg patched.0 stamp cfg.deployments (0, []) patched.1 d,
    ),
  )
