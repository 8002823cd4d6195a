-- ===== src/Actuator/Journal.antt =====
-- The log lines of `K8sActuator.Switch` and its two loops (pkg/actuator/k8s.go), each read off at the
-- state of the API in which its round starts.
pub mod Reads
pub mod Patched
pub mod Rolled
pub mod Truth
pub mod Counted
pub mod Sound
pub mod Audit
use couchbase_health_observe.Prelude.{
  ℕ, Bool, true, false, not, ◌&&◌, List, [], ◌∷◌, ◌++◌, Str, str_eq, is_nil, ltb, ◌==◌, some, none,
  if◌then◌else◌,
}
use couchbase_health_observe.Prelude.Dict.{contains}
use couchbase_health_observe.Actuator.Types.{Ref, Config, Error, ann_switched_to}
use couchbase_health_observe.Actuator.Kube.{ConfigMap, Deployment, get, ok, failed, Kube}
use couchbase_health_observe.Actuator.Switch.{
  PatchLedger, empty_ledger, patch_one, patch_config_maps, roll_one, roll_deployments,
}
use couchbase_health_observe.Actuator.Switch.Reads.{pointed, rolled_to}

pub data ActuatorLine : Type 0 where
  configmap_patch : Ref → Str → Str → Str → ActuatorLine
  roll_skipped : Ref → ActuatorLine
  deployment_roll : Ref → ActuatorLine
  roll_only : ℕ → Str → ActuatorLine

module _ (K : Kube) (cfg : Config) where
  -- The line of a round of `patchConfigMaps`, after its get and after its update.
  unfoldable pub repoint_lines : Ref → ConfigMap → K.World → List ActuatorLine
  repoint_lines ref cm w =
      let from = get cm.content cfg.config_key in
      let (err, w') = K.update_config_map ref (pointed cfg cm) w in
      elim err [ some e ↦ [] | none ↦ configmap_patch ref cfg.config_key from cfg.secondary ∷ [] ]

  unfoldable pub patch_one_lines : Ref → K.World → List ActuatorLine
  unfolding repoint_lines
  patch_one_lines ref w =
      let (answer, w') = K.get_config_map ref w in
      elim answer [
        | failed e ↦ []
        | ok cm ↦
            if str_eq (get cm.content cfg.config_key) cfg.secondary
            then []
            else if cfg.dry_run
            then []
            else repoint_lines ref cm w'
      ]

  unfoldable pub patch_lines : List Ref → PatchLedger → K.World → List ActuatorLine
  patch_lines [] led w = []
  patch_lines (ref ∷ refs) led w =
      let (led', w') = patch_one K cfg ref led w in
      patch_one_lines ref w ++ patch_lines refs led' w'

  -- The line of a round of `rollDeployments`, after its get and after its update.
  unfoldable pub stamp_lines : Str → Ref → Deployment → K.World → List ActuatorLine
  stamp_lines stamp ref dep w =
      let (err, w') = K.update_deployment ref (rolled_to cfg stamp dep) w in
      elim err [ some e ↦ [] | none ↦ deployment_roll ref ∷ [] ]

  unfoldable pub roll_one_lines : PatchLedger → Str → Ref → K.World → List ActuatorLine
  unfolding stamp_lines
  roll_one_lines led stamp ref w =
      if contains led.failed_ns ref.namespace
      then roll_skipped ref ∷ []
      else (let (answer, w') = K.get_deployment ref w in
          elim answer [
            | failed e ↦ []
            | ok dep ↦
                if not (contains led.patched_ns ref.namespace)
                  && str_eq (get dep.annotations ann_switched_to) cfg.secondary
                then []
                else stamp_lines stamp ref dep w'
          ])

  unfoldable pub roll_lines :
      PatchLedger → Str → List Ref → ℕ × List Error → K.World → List ActuatorLine
  roll_lines led stamp [] acc w = []
  roll_lines led stamp (ref ∷ refs) acc w =
      let (acc', w') = roll_one K cfg led stamp ref acc w in
      roll_one_lines led stamp ref w ++ roll_lines led stamp refs acc' w'

  unfoldable pub switch_lines : Str → K.World → List ActuatorLine
  unfolding empty_ledger
  switch_lines stamp w =
      if is_nil cfg.config_maps
      then []
      else (let (led, w1) = patch_config_maps K cfg cfg.config_maps empty_ledger w in
          let patches = patch_lines cfg.config_maps empty_ledger w in
          if cfg.dry_run
          then patches
          else (let ((rolled, errs), w2) =
                roll_deployments K cfg led stamp cfg.deployments (0, []) w1 in
              let rolls = roll_lines led stamp cfg.deployments (0, []) w1 in
              let only =
                if (led.pending == 0) && ltb 0 rolled
                then roll_only rolled cfg.secondary ∷ []
                else [] in
              patches ++ (rolls ++ only)))
