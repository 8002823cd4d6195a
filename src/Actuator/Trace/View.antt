-- ===== src/Actuator/Trace/View.antt =====
-- A switch over an API that keeps more than another one (pkg/actuator/k8s.go): seen through what the
-- other keeps, it is the switch over that.
use couchbase_health_observe.Prelude.{
  ℕ, ◌≡◌, refl, List, [], ◌∷◌, Str, arith, Option-cases, inl, inr,
}
use couchbase_health_observe.Actuator.Types.{Ref, Config, Error}
use couchbase_health_observe.Actuator.Kube.{ConfigMap, Deployment, Answer-cases, Kube}
use couchbase_health_observe.Actuator.Switch.{
  PatchLedger, empty_ledger, repoint, patch_found, patch_one, patch_config_maps, stamp_deployment,
  roll_found, roll_one, roll_deployments, switch,
}
use couchbase_health_observe.Actuator.Switch.Reads.{pointed, rolled_to}

-- The same outcome, seen through the view.
abbrev pub SeenAs : {V W A : Type 0} → (V → W) → A × V → A × W → Type 0
SeenAs view (a, v) (b, w) = (a ≡ b) × (view v ≡ w)

pub record IsView (J K : Kube) (view : J.World → K.World) : Type 0 where
  pub get_config_map :
      (r : Ref) (j : J.World) → SeenAs view (J.get_config_map r j) (K.get_config_map r (view j))
  pub update_config_map :
      (r : Ref) (cm : ConfigMap) (j : J.World)
      → SeenAs view (J.update_config_map r cm j) (K.update_config_map r cm (view j))
  pub get_deployment :
      (r : Ref) (j : J.World) → SeenAs view (J.get_deployment r j) (K.get_deployment r (view j))
  pub update_deployment :
      (r : Ref) (d : Deployment) (j : J.World)
      → SeenAs view (J.update_deployment r d j) (K.update_deployment r d (view j))

module _ (J K : Kube) (view : J.World → K.World) (V : IsView J K view) (cfg : Config) where
  patch_one-view :
      (ref : Ref) (led : PatchLedger) (j : J.World)
      → SeenAs view (patch_one J cfg ref led j) (patch_one K cfg ref led (view j))
  unfolding patch_one patch_found repoint
  patch_one-view ref led j =
      let j' = (J.get_config_map ref j).1 in
      elim (Answer-cases (J.get_config_map ref j).0) [
        | inr (x, e) ↦ ground (arith, V.get_config_map ref j)
        | inl (cm, e) ↦ elim (Option-cases (J.update_config_map ref (pointed cfg cm) j').0) [
          | inl done ↦
              ground (arith, V.get_config_map ref j, V.update_config_map ref (pointed cfg cm) j')
          | inr (x, refused) ↦
              ground (arith, V.get_config_map ref j, V.update_config_map ref (pointed cfg cm) j')
        ]
      ]

  patch_config_maps-view :
      (refs : List Ref) (led : PatchLedger) (j : J.World)
      → SeenAs view (patch_config_maps J cfg refs led j) (patch_config_maps K cfg refs led (view j))
  unfolding patch_config_maps
  patch_config_maps-view [] led j = (refl, refl)
  patch_config_maps-view (ref ∷ refs) led j =
      let (led', j') = patch_one J cfg ref led j in
      ground (arith, patch_one-view ref led j, patch_config_maps-view refs led' j')

  roll_one-view :
      (led : PatchLedger) (stamp : Str) (ref : Ref) (acc : ℕ × List Error) (j : J.World)
      → SeenAs view (roll_one J cfg led stamp ref acc j) (roll_one K cfg led stamp ref acc (view j))
  unfolding roll_one roll_found stamp_deployment
  roll_one-view led stamp ref (rolled, errs) j =
      let j' = (J.get_deployment ref j).1 in
      elim (Answer-cases (J.get_deployment ref j).0) [
        | inr (x, e) ↦ ground (arith, V.get_deployment ref j)
        | inl (d, e) ↦ elim (Option-cases (J.update_deployment ref (rolled_to cfg stamp d) j').0) [
          | inl done ↦
              ground
                (arith, V.get_deployment ref j, V.update_deployment ref (rolled_to cfg stamp d) j')
          | inr (x, refused) ↦
              ground
                (arith, V.get_deployment ref j, V.update_deployment ref (rolled_to cfg stamp d) j')
        ]
      ]

  roll_deployments-view :
      (led : PatchLedger) (stamp : Str) (refs : List Ref) (acc : ℕ × List Error) (j : J.World)
      → SeenAs view
          (roll_deployments J cfg led stamp refs acc j)
          (roll_deployments K cfg led stamp refs acc (view j))
  unfolding roll_deployments
  roll_deployments-view led stamp [] acc j = (refl, refl)
  roll_deployments-view led stamp (ref ∷ refs) acc j =
      let (acc', j') = roll_one J cfg led stamp ref acc j in
      ground
        (arith, roll_one-view led stamp ref acc j, roll_deployments-view led stamp refs acc' j')

  pub switch-view :
      (stamp : Str) (j : J.World) → SeenAs view (switch J cfg stamp j) (switch K cfg stamp (view j))
  unfolding switch
  switch-view stamp j =
      let patches = patch_config_maps-view cfg.config_maps empty_ledger j in
      let (led, j1) = patch_config_maps J cfg cfg.config_maps empty_ledger j in
      ground (arith, patches, roll_deployments-view led stamp cfg.deployments (0, []) j1)
