-- ===== src/Actuator/Journal/Sound.antt =====
-- That the lines of a whole switch are true of the cluster (pkg/actuator/k8s.go).
use couchbase_health_observe.Prelude.{
  ℕ, ◌<◌, Bool, true, false, ◌&&◌, ◌≡◌, ◌⊎◌, inl, refl, ◌∙◌, List, [], ◌∷◌, ◌++◌, Str, arith,
  any_of, All, All-append, ltb, is_nil, ◌==◌, if◌then◌else◌, if-intro,
}
use couchbase_health_observe.Prelude.Dict.{contains}
use couchbase_health_observe.Actuator.Types.{Ref, has_ref, Config, Error, no_config_map}
use couchbase_health_observe.Actuator.Kube.{Kube, IsLawful}
use couchbase_health_observe.Actuator.Switch.{
  PatchLedger, empty_ledger, patch_config_maps, roll_deployments, switch,
}
use couchbase_health_observe.Actuator.Switch.Reads.{on_secondary, stamped}
use couchbase_health_observe.Actuator.Switch.Frame.{patch_config_maps-deployment}
use couchbase_health_observe.Actuator.Switch.Roll.{
  roll_deployments-spares, roll_deployments-config_map,
}
use couchbase_health_observe.Actuator.Journal.{
  ActuatorLine, configmap_patch, roll_skipped, deployment_roll, roll_only, patch_lines, roll_lines,
  switch_lines,
}
use couchbase_health_observe.Actuator.Journal.Reads.{any_of-append}
use couchbase_health_observe.Actuator.Journal.Truth.{
  strands, unreadable, rolls_of, rolls_of-append, All-map, Repointed, PatchTrue, RollTrue,
  patch_lines-PatchTrue, patch_config_maps-strands,
}
use couchbase_health_observe.Actuator.Journal.Counted.{
  patch_config_maps-pending, roll_lines-RollTrue, roll_deployments-rolls, patch_lines-rolls,
}

-- What each kind of line says of a switch from one state of the cluster to another, which returns
-- the errors and writes the lines.
module _ (K : Kube) (cfg : Config) (w w' : K.World) (errs : List Error)
    (lines : List ActuatorLine) where
  abbrev pub IsTrue : ActuatorLine → Type 0
  IsTrue (configmap_patch c key from to) = Repointed K cfg w w' c key from to
  IsTrue (deployment_roll d) = stamped K cfg w' d ≡ true
  IsTrue (roll_skipped d) =
      (K.deployment w' d ≡ K.deployment w d) × (any_of (strands d.namespace) errs ≡ true)
  IsTrue (roll_only n sec) =
      (sec ≡ cfg.secondary)
      × (0 < n)
      × (n ≡ rolls_of lines)
      × ((c : Ref)
          → (K.config_map w' c ≡ K.config_map w c)
            × (has_ref cfg.config_maps c ≡ true
                → (on_secondary K cfg w' c ≡ true) ⊎ (any_of (unreadable c) errs ≡ true)))

if-both {ℓ κ μ} :
    {A : Type ℓ} {B : Type κ} (P : A → B → Type μ) (b : Bool) (x x' : A) (y y' : B)
    → P x y
    → P x' y'
    → P (if b then x else x') (if b then y else y')
if-both P true x x' y y' h h' = h
if-both P false x x' y y' h h' = h'

module _ (K : Kube) (L : IsLawful K) (cfg : Config) (stamp : Str) (w : K.World) where
  abbrev patched : PatchLedger × K.World
  patched = patch_config_maps K cfg cfg.config_maps empty_ledger w

  abbrev rolled : (ℕ × List Error) × K.World
  rolled = roll_deployments K cfg patched.0 stamp cfg.deployments (0, []) patched.1

  abbrev patches : List ActuatorLine
  patches = patch_lines K cfg cfg.config_maps empty_ledger w

  abbrev rolls : List ActuatorLine
  rolls = roll_lines K cfg patched.0 stamp cfg.deployments (0, []) patched.1

  -- A line of the first phase stays true in the second, and a line of the second is true of the
  -- whole.
  IsTrue-after :
      (errs : List Error) (lines : List ActuatorLine) (l : ActuatorLine)
      → PatchTrue K cfg w patched.1 l
      → IsTrue K cfg w rolled.1 errs lines l
  IsTrue-after errs lines (configmap_patch c key from to) (k, t, off, was, now) = (
    k,
    t,
    off,
    was,
    ground (
      arith,
      now,
      roll_deployments-config_map K L cfg patched.0 stamp cfg.deployments (0, []) patched.1 c,
    ),
  )
  IsTrue-after errs lines (roll_skipped d) p = absurd p
  IsTrue-after errs lines (deployment_roll d) p = absurd p
  IsTrue-after errs lines (roll_only n sec) p = absurd p

  IsTrue-here :
      (errs : List Error) (lines : List ActuatorLine) (l : ActuatorLine)
      → PatchTrue K cfg w patched.1 l
      → IsTrue K cfg w patched.1 errs lines l
  IsTrue-here errs lines (configmap_patch c key from to) p = p
  IsTrue-here errs lines (roll_skipped d) p = absurd p
  IsTrue-here errs lines (deployment_roll d) p = absurd p
  IsTrue-here errs lines (roll_only n sec) p = absurd p

  IsTrue-rolled :
      (lines : List ActuatorLine) (l : ActuatorLine)
      → RollTrue K cfg patched.0 rolled.1 l
      → IsTrue K cfg w rolled.1 (patched.0.errs ++ rolled.0.1) lines l
  IsTrue-rolled lines (configmap_patch c key from to) p = absurd p
  IsTrue-rolled lines (deployment_roll d) p = p
  IsTrue-rolled lines (roll_skipped d) p = (
    roll_deployments-spares K L cfg patched.0 stamp cfg.deployments (0, []) patched.1 d (inl p)
        ∙ patch_config_maps-deployment K L cfg cfg.config_maps empty_ledger w d,
    ground (
      arith,
      p,
      patch_config_maps-strands K L cfg cfg.config_maps empty_ledger w d.namespace
          (unfold empty_ledger contains in refl),
      any_of-append (strands d.namespace) patched.0.errs rolled.0.1,
    ),
  )
  IsTrue-rolled lines (roll_only n sec) p = absurd p

  abbrev only : List ActuatorLine
  only =
      if (patched.0.pending == 0) && ltb 0 rolled.0.0
      then roll_only rolled.0.0 cfg.secondary ∷ []
      else []

  IsTrue-only :
      All (IsTrue K cfg w rolled.1 (patched.0.errs ++ rolled.0.1) (patches ++ (rolls ++ only))) only
  IsTrue-only =
      let lines = patches ++ (rolls ++ only) in
      if-intro (All (IsTrue K cfg w rolled.1 (patched.0.errs ++ rolled.0.1) lines))
        ((patched.0.pending == 0) && ltb 0 rolled.0.0)
        (λ calm. (
          (
            refl,
            ground arith,
            unfold rolls_of in
                ground (
                  arith,
                  rolls_of-append patches (rolls ++ only),
                  rolls_of-append rolls only,
                  patch_lines-rolls K L cfg cfg.config_maps empty_ledger w,
                  roll_deployments-rolls K L cfg patched.0 stamp cfg.deployments (0, []) patched.1,
                ),
            λ c.
                let pending =
                  patch_config_maps-pending K L cfg cfg.config_maps empty_ledger w c
                    (ground arith) in
                let kept =
                  roll_deployments-config_map K L cfg patched.0 stamp cfg.deployments (0, [])
                    patched.1 c in
                (
                  kept ∙ pending.1,
                  λ target. ground (
                    arith,
                    pending,
                    kept,
                    any_of-append (unreadable c) patched.0.errs rolled.0.1,
                  ),
                ),
          ),
          record {},
        ))
        (λ other. record {})

  -- Over an API that keeps its laws, each line of a switch is true. A `configmap_patch` gives the
  -- configured key, what the ConfigMap held under it before the switch, which was not the secondary,
  -- and the secondary, which it holds after. The Deployment of a `deployment_roll` carries the stamp
  -- after the switch. That of a `roll_skipped` is as it was before, and an error names a ConfigMap of
  -- its namespace as one not read or not updated. A `roll_only` gives the secondary and the number of
  -- `deployment_roll` lines, which is not 0; no ConfigMap was changed, and each target holds the
  -- secondary or is named by an error as one that could not be read: that one may still be on the
  -- primary.
  pub switch_lines_sound :
      let ((switched, errs), w') = switch K cfg stamp w in
      let lines = switch_lines K cfg stamp w in All (IsTrue K cfg w w' errs lines) lines
  unfolding switch switch_lines
  switch_lines_sound =
      let true_lines = λ (r : (Bool × List Error) × K.World) (ls : List ActuatorLine).
        All (IsTrue K cfg w r.1 r.0.1 ls) ls in
      let patched_true =
        patch_lines-PatchTrue K L cfg cfg.config_maps empty_ledger w w (λ c. inl refl) in
      let errs = patched.0.errs ++ rolled.0.1 in
      let lines = patches ++ (rolls ++ only) in
      let during = IsTrue K cfg w rolled.1 errs lines in
      if-both true_lines (is_nil cfg.config_maps) ((false, no_config_map ∷ []), w)
        (if cfg.dry_run
          then ((ltb 0 patched.0.pending, patched.0.errs), patched.1)
          else ((is_nil errs && ltb 0 patched.0.pending, errs), rolled.1))
        [] (if cfg.dry_run then patches else lines) (record {})
        (if-both true_lines cfg.dry_run ((ltb 0 patched.0.pending, patched.0.errs), patched.1)
          ((is_nil errs && ltb 0 patched.0.pending, errs), rolled.1) patches lines
          (All-map (PatchTrue K cfg w patched.1) (IsTrue K cfg w patched.1 patched.0.errs patches)
            patches (IsTrue-here patched.0.errs patches) patched_true)
          (All-append during patches (rolls ++ only)
            (All-map (PatchTrue K cfg w patched.1) during patches (IsTrue-after errs lines)
              patched_true)
            (All-append during rolls only
              (All-map (RollTrue K cfg patched.0 rolled.1) during rolls (IsTrue-rolled lines)
                (roll_lines-RollTrue K L cfg patched.0 stamp cfg.deployments (0, []) patched.1))
              IsTrue-only)))
