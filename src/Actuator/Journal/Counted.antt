-- ===== src/Actuator/Journal/Counted.antt =====
-- What the two phases of a switch count, and the lines of the second (pkg/actuator/k8s.go).
use couchbase_health_observe.Prelude.{
  ℕ, ◌+◌, true, not, ◌||◌, ◌≡◌, inl, inr, refl, List, [], ◌∷◌, Str, arith, any_of, All, All-append,
}
use couchbase_health_observe.Actuator.Types.{
  Ref, ref_eq, ref_eq_iff, has_ref, Config, Error, get_config_map_failed,
}
use couchbase_health_observe.Actuator.Kube.{Answer-cases, Kube, IsLawful}
use couchbase_health_observe.Actuator.Switch.{
  PatchLedger, repoint, patch_found, patch_one, patch_config_maps, stamp_deployment, roll_found,
  roll_one, roll_deployments,
}
use couchbase_health_observe.Actuator.Switch.Reads.{on_secondary}
use couchbase_health_observe.Actuator.Switch.Roll.{roll_deployments-keeps}
use couchbase_health_observe.Actuator.Journal.{
  ActuatorLine, configmap_patch, roll_skipped, deployment_roll, roll_only, patch_one_lines,
  repoint_lines, patch_lines, roll_one_lines, stamp_lines, roll_lines,
}
use couchbase_health_observe.Actuator.Journal.Reads.{any_of-append}
use couchbase_health_observe.Actuator.Journal.Rolled.{roll_one-logged}
use couchbase_health_observe.Actuator.Journal.Truth.{
  unreadable, rolls_of, rolls_of-append, All-map, RollTrue,
}

module _ (K : Kube) (L : IsLawful K) (cfg : Config) where
  -- Where nothing is pending, nothing was written, and a target is on the secondary, or named as one
  -- that could not be read.
  patch_one-pending :
      (ref : Ref) (led : PatchLedger) (w : K.World) (c : Ref)
      → let (led', w') = patch_one K cfg ref led w in
        led'.pending ≡ 0
        → (led.pending ≡ 0)
          × (K.config_map w' c ≡ K.config_map w c)
          × ((not (ref_eq ref c) || (on_secondary K cfg w' c || any_of (unreadable c) led'.errs))
              ≡ true)
          × ((not (any_of (unreadable c) led.errs) || any_of (unreadable c) led'.errs) ≡ true)
  unfolding patch_one patch_found repoint
  patch_one-pending ref led w c calm = elim (Answer-cases (K.get_config_map ref w).0) [
    | inl (cm, e) ↦
        ground (
          arith,
          ref_eq_iff ref c,
          (L.get_config_map_keeps ref w).0 c,
          L.get_config_map_ok ref w cm,
        )
    | inr (x, e) ↦ ground (
      arith,
      (L.get_config_map_keeps ref w).0 c,
      any_of-append (unreadable c) led.errs (get_config_map_failed ref x ∷ []),
    )
  ]

  pub patch_config_maps-pending :
      (refs : List Ref) (led : PatchLedger) (w : K.World) (c : Ref)
      → let (led', w') = patch_config_maps K cfg refs led w in
        led'.pending ≡ 0
        → (led.pending ≡ 0)
          × (K.config_map w' c ≡ K.config_map w c)
          × ((not (has_ref refs c) || (on_secondary K cfg w' c || any_of (unreadable c) led'.errs))
              ≡ true)
          × ((not (any_of (unreadable c) led.errs) || any_of (unreadable c) led'.errs) ≡ true)
  unfolding patch_config_maps has_ref
  patch_config_maps-pending [] led w c calm = (calm, refl, refl, ground arith)
  patch_config_maps-pending (ref ∷ refs) led w c calm =
      let (led', w') = patch_one K cfg ref led w in
      let rest = patch_config_maps-pending refs led' w' c calm in
      ground (arith, rest, patch_one-pending ref led w c rest.0)

  roll_one_lines-RollTrue :
      (led : PatchLedger) (stamp : Str) (ref : Ref) (acc : ℕ × List Error) (w : K.World)
      → All
          (RollTrue K cfg led (roll_one K cfg led stamp ref acc w).1)
          (roll_one_lines K cfg led stamp ref w)
  unfolding roll_one_lines stamp_lines
  roll_one_lines-RollTrue led stamp ref acc w =
      let logged = roll_one-logged K L cfg led stamp ref acc w ref in
      unfold roll_one_lines stamp_lines in ground (arith, ref_eq_iff ref ref, logged)

  pub roll_lines-RollTrue :
      (led : PatchLedger) (stamp : Str) (refs : List Ref) (acc : ℕ × List Error) (w : K.World)
      → All
          (RollTrue K cfg led (roll_deployments K cfg led stamp refs acc w).1)
          (roll_lines K cfg led stamp refs acc w)
  unfolding roll_deployments roll_lines
  roll_lines-RollTrue led stamp [] acc w = record {}
  roll_lines-RollTrue led stamp (ref ∷ refs) acc w =
      let (acc', w') = roll_one K cfg led stamp ref acc w in
      let wf = (roll_deployments K cfg led stamp refs acc' w').1 in
      All-append (RollTrue K cfg led wf) (roll_one_lines K cfg led stamp ref w)
        (roll_lines K cfg led stamp refs acc' w')
        (All-map (RollTrue K cfg led w') (RollTrue K cfg led wf)
          (roll_one_lines K cfg led stamp ref w) (λ l p. later l p)
          (roll_one_lines-RollTrue led stamp ref acc w))
        (roll_lines-RollTrue led stamp refs acc' w')
    where
      later :
          (l : ActuatorLine)
          → RollTrue K cfg led (roll_one K cfg led stamp ref acc w).1 l
          → RollTrue K cfg led (roll_deployments K cfg led stamp (ref ∷ refs) acc w).1 l
      later (deployment_roll d) p =
          let (acc', w') = roll_one K cfg led stamp ref acc w in
          roll_deployments-keeps K L cfg led stamp refs acc' w' d p
      later (roll_skipped d) p = p
      later (configmap_patch c key from to) p = absurd p
      later (roll_only n sec) p = absurd p

  -- The count of the rolled is that of the lines.
  roll_one-rolls :
      (led : PatchLedger) (stamp : Str) (ref : Ref) (acc : ℕ × List Error) (w : K.World)
      → (roll_one K cfg led stamp ref acc w).0.0
        ≡ acc.0 + rolls_of (roll_one_lines K cfg led stamp ref w)
  unfolding roll_one roll_found stamp_deployment roll_one_lines stamp_lines rolls_of
  roll_one-rolls led stamp ref (n, errs) w = ground arith

  pub roll_deployments-rolls :
      (led : PatchLedger) (stamp : Str) (refs : List Ref) (acc : ℕ × List Error) (w : K.World)
      → (roll_deployments K cfg led stamp refs acc w).0.0
        ≡ acc.0 + rolls_of (roll_lines K cfg led stamp refs acc w)
  unfolding roll_deployments roll_lines rolls_of
  roll_deployments-rolls led stamp [] acc w = ground arith
  roll_deployments-rolls led stamp (ref ∷ refs) acc w =
      let (acc', w') = roll_one K cfg led stamp ref acc w in
      ground (
        arith,
        rolls_of-append (roll_one_lines K cfg led stamp ref w)
            (roll_lines K cfg led stamp refs acc' w'),
        roll_one-rolls led stamp ref acc w,
        roll_deployments-rolls led stamp refs acc' w',
      )

  pub patch_lines-rolls :
      (refs : List Ref) (led : PatchLedger) (w : K.World)
      → rolls_of (patch_lines K cfg refs led w) ≡ 0
  unfolding patch_lines patch_one_lines repoint_lines rolls_of
  patch_lines-rolls [] led w = refl
  patch_lines-rolls (ref ∷ refs) led w =
      let (led', w') = patch_one K cfg ref led w in
      ground (
        arith,
        rolls_of-append (patch_one_lines K cfg ref w) (patch_lines K cfg refs led' w'),
        patch_lines-rolls refs led' w',
      )
