-- ===== src/Actuator/Switch/Calm.antt =====
-- A Deployment whose namespace has nothing to patch (pkg/actuator/k8s.go).
use couchbase_health_observe.Prelude.{
  ℕ, true, false, ◌≡◌, refl, ◌∙◌, List, [], ◌∷◌, Str, str_eq, str_eq_iff, arith, Bool-cases, inl,
  inr, Option-cases,
}
use couchbase_health_observe.Prelude.Dict.{contains}
use couchbase_health_observe.Actuator.Types.{Ref, Config, ref_eq, ref_eq_iff, has_ref, Error}
use couchbase_health_observe.Actuator.Kube.{Answer-cases, Kube, IsLawful}
use couchbase_health_observe.Actuator.Switch.{
  PatchLedger, empty_ledger, repoint, patch_found, patch_one, patch_config_maps, roll_one,
  roll_deployments, switch,
}
use couchbase_health_observe.Actuator.Switch.Reads.{on_secondary, stamped, pointed}
use couchbase_health_observe.Actuator.Switch.Frame.{patch_config_maps-deployment}
use couchbase_health_observe.Actuator.Switch.Patch.{patch_one-keeps}
use couchbase_health_observe.Actuator.Switch.Roll.{roll_one-idle, roll_one-spares}

module _ (K : Kube) (L : IsLawful K) (cfg : Config) (ns : Str) where
  -- No round marks a namespace whose targets hold the secondary as patched.
  patch_one-calm :
      (ref : Ref) (led : PatchLedger) (w : K.World)
      → (ref.namespace ≡ ns → on_secondary K cfg w ref ≡ true)
      → contains led.patched_ns ns ≡ false
      → contains (patch_one K cfg ref led w).0.patched_ns ns ≡ false
  unfolding patch_one patch_found repoint contains
  patch_one-calm ref led w h free =
      let after = (K.get_config_map ref w).1 in
      elim (Bool-cases (str_eq ref.namespace ns)) [
        | inl here ↦
            let held = h ((str_eq_iff ref.namespace ns).0 here) in
            elim (Answer-cases (K.get_config_map ref w).0) [
              | inl (cm, e) ↦ ground (arith, L.get_config_map_ok ref w cm)
              | inr (x, e) ↦ ground arith
            ]
        | inr apart ↦ elim (Answer-cases (K.get_config_map ref w).0) [
          | inl (cm, e) ↦ elim (Option-cases (K.update_config_map ref (pointed cfg cm) after).0) [
            | inl done ↦ ground arith
            | inr (x, refused) ↦ ground arith
          ]
          | inr (x, e) ↦ ground arith
        ]
      ]

  patch_config_maps-calm :
      (refs : List Ref) (led : PatchLedger) (w : K.World)
      → ((c : Ref) → has_ref refs c ≡ true → c.namespace ≡ ns → on_secondary K cfg w c ≡ true)
      → contains led.patched_ns ns ≡ false
      → contains (patch_config_maps K cfg refs led w).0.patched_ns ns ≡ false
  unfolding patch_config_maps has_ref
  patch_config_maps-calm [] led w h free = free
  patch_config_maps-calm (ref ∷ refs) led w h free =
      let (led', w') = patch_one K cfg ref led w in
      patch_config_maps-calm refs led' w'
        (λ c m same. patch_one-keeps K L cfg ref led w c (h c (ground arith) same))
        (patch_one-calm ref led w (h ref (ground (arith, (ref_eq_iff ref ref).1 refl))) free)

module _ (K : Kube) (L : IsLawful K) (cfg : Config) (led : PatchLedger) (stamp : Str) where
  roll_deployments-calm :
      (refs : List Ref) (acc : ℕ × List Error) (w : K.World) (d : Ref)
      → contains led.patched_ns d.namespace ≡ false
      → stamped K cfg w d ≡ true
      → K.deployment (roll_deployments K cfg led stamp refs acc w).1 d ≡ K.deployment w d
  unfolding roll_deployments
  roll_deployments-calm [] acc w d calm h = refl
  roll_deployments-calm (ref ∷ refs) acc w d calm h =
      let (acc', w') = roll_one K cfg led stamp ref acc w in
      let same : K.deployment w' d ≡ K.deployment w d = elim (Bool-cases (ref_eq ref d)) [
        | inl here ↦ ground (arith, ref_eq_iff ref d, roll_one-idle K L cfg led stamp ref acc w d)
        | inr apart ↦ roll_one-spares K L cfg led stamp ref acc w d (inr apart)
      ] in
      roll_deployments-calm refs acc' w' d calm (ground arith) ∙ same

-- Over an API that keeps its laws, a Deployment that carries its stamp, in a namespace where every
-- target ConfigMap holds the secondary, is left as it was by a switch, whatever else the switch
-- patches, rolls or fails at.
pub switch-calm :
    (K : Kube) (L : IsLawful K) (cfg : Config) (stamp : Str) (w : K.World) (d : Ref)
    → ((c : Ref)
        → has_ref cfg.config_maps c ≡ true
        → c.namespace ≡ d.namespace
        → on_secondary K cfg w c ≡ true)
    → stamped K cfg w d ≡ true
    → K.deployment (switch K cfg stamp w).1 d ≡ K.deployment w d
unfolding switch
switch-calm K L cfg stamp w d held h =
    let (led, w1) = patch_config_maps K cfg cfg.config_maps empty_ledger w in
    let before = patch_config_maps-deployment K L cfg cfg.config_maps empty_ledger w d in
    let calm =
      patch_config_maps-calm K L cfg d.namespace cfg.config_maps empty_ledger w held
        (unfold empty_ledger contains in refl) in
    ground (
      arith,
      before,
      roll_deployments-calm K L cfg led stamp cfg.deployments (0, []) w1 d calm (ground arith),
    )
