-- ===== src/Actuator/Switch.antt =====
-- `K8sActuator.Switch` (pkg/actuator/k8s.go). The API's state is passed through every call; the
-- joined error is the list of its parts, nil where that is empty. Actuator/Journal has the log lines.
pub mod Reads
pub mod Patch
pub mod Frame
pub mod Roll
pub mod Calm
pub mod Outcome
use couchbase_health_observe.Prelude.{
  ℕ, ◌+◌, Bool, true, false, not, ◌&&◌, List, [], ◌∷◌, ◌++◌, Option, none, some, Str, str_eq,
  is_nil, ltb, if◌then◌else◌,
}
use couchbase_health_observe.Prelude.Dict.{contains}
use couchbase_health_observe.Actuator.Types.{
  Ref, Config, Error, no_config_map, get_config_map_failed, update_config_map_failed,
  get_deployment_failed, roll_deployment_failed, ann_switched_to, ann_restarted_at,
}
use couchbase_health_observe.Actuator.Kube.{
  ConfigMap, Deployment, get, put, Answer, ok, failed, Kube,
}

-- The maps of namespaces to true are sets.
pub record PatchLedger : Type 0 where
  pub patched_ns : List Str
  pub failed_ns : List Str
  pub pending : ℕ
  pub errs : List Error

unfoldable pub empty_ledger : PatchLedger
empty_ledger = record { patched_ns = []; failed_ns = []; pending = 0; errs = [] }

abbrev pub fail : PatchLedger → Ref → Error → PatchLedger
fail led ref e = record led {
  failed_ns = ref.namespace ∷ led.failed_ns;
  errs = led.errs ++ (e ∷ []);
}

module _ (K : Kube) (cfg : Config) where
  -- The write of one ConfigMap that is pending, after the dry-run test.
  unfoldable pub repoint : Ref → ConfigMap → PatchLedger → K.World → PatchLedger × K.World
  repoint ref cm led w =
      let cm' : ConfigMap = record { content = put cm.content cfg.config_key cfg.secondary } in
      let (err, w') = K.update_config_map ref cm' w in
      elim err [
        | some e ↦ (fail led ref (update_config_map_failed ref e), w')
        | none ↦ (record led { patched_ns = ref.namespace ∷ led.patched_ns }, w')
      ]

  -- One round of the loop of `patchConfigMaps`, after its get.
  unfoldable pub patch_found : Ref → ConfigMap → PatchLedger → K.World → PatchLedger × K.World
  unfolding repoint
  patch_found ref cm led w =
      let led' = record led { pending = led.pending + 1 } in
      if str_eq (get cm.content cfg.config_key) cfg.secondary
      then (led, w)
      else if cfg.dry_run
      then (led', w)
      else repoint ref cm led' w

  unfoldable pub patch_one : Ref → PatchLedger → K.World → PatchLedger × K.World
  unfolding patch_found
  patch_one ref led w =
      let (answer, w') = K.get_config_map ref w in
      elim answer [
        | failed e ↦ (fail led ref (get_config_map_failed ref e), w')
        | ok cm ↦ patch_found ref cm led w'
      ]

  unfoldable pub patch_config_maps : List Ref → PatchLedger → K.World → PatchLedger × K.World
  patch_config_maps [] led w = (led, w)
  patch_config_maps (ref ∷ refs) led w =
      let (led', w') = patch_one ref led w in patch_config_maps refs led' w'

  -- What the loop of `rollDeployments` keeps: the count of the rolled, and the errors.
  abbrev pub Rolled : Type 0
  Rolled = ℕ × List Error

  -- The write of one Deployment that is to roll.
  unfoldable pub stamp_deployment : Str → Ref → Deployment → Rolled → K.World → Rolled × K.World
  stamp_deployment stamp ref dep (rolled, errs) w =
      let dep' : Deployment = record {
        annotations =
            put (put dep.annotations ann_switched_to cfg.secondary) ann_restarted_at stamp;
      } in
      let (err, w') = K.update_deployment ref dep' w in
      elim err [
        | some e ↦ ((rolled, errs ++ (roll_deployment_failed ref e ∷ [])), w')
        | none ↦ ((rolled + 1, errs), w')
      ]

  -- One round, after the skip of a namespace whose ConfigMap failed, and after the get.
  unfoldable pub roll_found :
      PatchLedger → Str → Ref → Deployment → Rolled → K.World → Rolled × K.World
  unfolding stamp_deployment
  roll_found led stamp ref dep acc w =
      if not (contains led.patched_ns ref.namespace)
        && str_eq (get dep.annotations ann_switched_to) cfg.secondary
      then (acc, w)
      else stamp_deployment stamp ref dep acc w

  unfoldable pub roll_one : PatchLedger → Str → Ref → Rolled → K.World → Rolled × K.World
  unfolding roll_found
  roll_one led stamp ref (rolled, errs) w =
      if contains led.failed_ns ref.namespace
      then ((rolled, errs), w)
      else (let (answer, w') = K.get_deployment ref w in
          elim answer [
            | failed e ↦ ((rolled, errs ++ (get_deployment_failed ref e ∷ [])), w')
            | ok dep ↦ roll_found led stamp ref dep (rolled, errs) w'
          ])

  unfoldable pub roll_deployments :
      PatchLedger → Str → List Ref → Rolled → K.World → Rolled × K.World
  roll_deployments led stamp [] acc w = (acc, w)
  roll_deployments led stamp (ref ∷ refs) acc w =
      let (acc', w') = roll_one led stamp ref acc w in roll_deployments led stamp refs acc' w'

  -- The result of a switch, and the world after it; `stamp` is what the clock reads.
  unfoldable pub switch : Str → K.World → (Bool × List Error) × K.World
  unfolding empty_ledger
  switch stamp w =
      if is_nil cfg.config_maps
      then ((false, no_config_map ∷ []), w)
      else (let (led, w1) = patch_config_maps cfg.config_maps empty_ledger w in
          if cfg.dry_run
          then ((ltb 0 led.pending, led.errs), w1)
          else (let ((rolled, errs), w2) = roll_deployments led stamp cfg.deployments (0, []) w1 in
              let err = led.errs ++ errs in ((is_nil err && ltb 0 led.pending, err), w2)))
