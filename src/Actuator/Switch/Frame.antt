-- ===== src/Actuator/Switch/Frame.antt =====
-- What the patch phase leaves alone (pkg/actuator/k8s.go).
use couchbase_health_observe.Prelude.{
  true, false, ◌≡◌, refl, ◌∙◌, List, [], ◌∷◌, Option, none, some, Str, str_eq, arith, Bool-cases,
  inl, inr, ◌⊎◌, all_of,
}
use couchbase_health_observe.Actuator.Types.{Ref, Config, ref_eq, ref_eq_iff, has_ref}
use couchbase_health_observe.Actuator.Kube.{ConfigMap, get, Answer-cases, Kube, IsLawful}
use couchbase_health_observe.Actuator.Switch.{
  PatchLedger, repoint, patch_found, patch_one, patch_config_maps,
}
use couchbase_health_observe.Actuator.Switch.Reads.{on_secondary, pointed, get-put}
use couchbase_health_observe.Actuator.Switch.Patch.{patch_one-keeps}

-- What a reader finds in a ConfigMap under a key.
abbrev pub value_in : Option ConfigMap → Str → Option Str
value_in none k = none
value_in (some cm) k = some (get cm.content k)

module _ (K : Kube) (L : IsLawful K) (cfg : Config) where
  patch_one-keeps_all :
      (ref : Ref) (led : PatchLedger) (w : K.World) (rs : List Ref)
      → all_of (on_secondary K cfg w) rs ≡ true
      → all_of (on_secondary K cfg (patch_one K cfg ref led w).1) rs ≡ true
  patch_one-keeps_all ref led w [] a = refl
  patch_one-keeps_all ref led w (r ∷ rs) a =
      ground (arith, patch_one-keeps_all ref led w rs, patch_one-keeps K L cfg ref led w r)

  patch_one-deployment :
      (ref : Ref) (led : PatchLedger) (w : K.World) (s : Ref)
      → K.deployment (patch_one K cfg ref led w).1 s ≡ K.deployment w s
  unfolding patch_one patch_found repoint
  patch_one-deployment ref led w s =
      let after = (K.get_config_map ref w).1 in
      elim (Answer-cases (K.get_config_map ref w).0) [
        | inl (cm, e) ↦ ground (
          arith,
          (L.get_config_map_keeps ref w).1 s,
          L.update_config_map_deployment ref (pointed cfg cm) after s,
        )
        | inr (x, e) ↦ ground (arith, (L.get_config_map_keeps ref w).1 s)
      ]

  pub patch_config_maps-deployment :
      (refs : List Ref) (led : PatchLedger) (w : K.World) (s : Ref)
      → K.deployment (patch_config_maps K cfg refs led w).1 s ≡ K.deployment w s
  unfolding patch_config_maps
  patch_config_maps-deployment [] led w s = refl
  patch_config_maps-deployment (ref ∷ refs) led w s =
      let (led', w') = patch_one K cfg ref led w in
      patch_config_maps-deployment refs led' w' s ∙ patch_one-deployment ref led w s

  -- At any ConfigMap, every key but the configured one reads as before.
  patch_one-value_in :
      (ref : Ref) (led : PatchLedger) (w : K.World) (s : Ref) (k : Str)
      → str_eq cfg.config_key k ≡ false
      → value_in (K.config_map (patch_one K cfg ref led w).1 s) k ≡ value_in (K.config_map w s) k
  unfolding patch_one patch_found repoint
  patch_one-value_in ref led w s k other =
      let after = (K.get_config_map ref w).1 in
      elim (Answer-cases (K.get_config_map ref w).0) [
        | inl (cm, e) ↦ elim (Bool-cases (ref_eq ref s)) [
          | inl same ↦ ground (
            arith,
            (L.get_config_map_keeps ref w).0 s,
            ref_eq_iff ref s,
            L.get_config_map_ok ref w cm,
            L.update_config_map_any ref (pointed cfg cm) after,
            get-put cm.content cfg.config_key k cfg.secondary,
          )
          | inr apart ↦ ground (
            arith,
            (L.get_config_map_keeps ref w).0 s,
            L.update_config_map_other ref (pointed cfg cm) after s,
          )
        ]
        | inr (x, e) ↦ ground (arith, (L.get_config_map_keeps ref w).0 s)
      ]

  pub patch_config_maps-value_in :
      (refs : List Ref) (led : PatchLedger) (w : K.World) (s : Ref) (k : Str)
      → str_eq cfg.config_key k ≡ false
      → value_in (K.config_map (patch_config_maps K cfg refs led w).1 s) k
        ≡ value_in (K.config_map w s) k
  unfolding patch_config_maps
  patch_config_maps-value_in [] led w s k other = refl
  patch_config_maps-value_in (ref ∷ refs) led w s k other =
      let (led', w') = patch_one K cfg ref led w in
      patch_config_maps-value_in refs led' w' s k other ∙ patch_one-value_in ref led w s k other

  -- A ConfigMap that is no target is left as it was.
  patch_one-other :
      (ref : Ref) (led : PatchLedger) (w : K.World) (s : Ref)
      → (cfg.dry_run ≡ true) ⊎ (ref_eq ref s ≡ false) ⊎ (on_secondary K cfg w ref ≡ true)
      → K.config_map (patch_one K cfg ref led w).1 s ≡ K.config_map w s
  unfolding patch_one patch_found repoint
  patch_one-other ref led w s h =
      let after = (K.get_config_map ref w).1 in
      elim (Answer-cases (K.get_config_map ref w).0) [
        | inl (cm, e) ↦ ground (
          arith,
          (L.get_config_map_keeps ref w).0 s,
          L.get_config_map_ok ref w cm,
          L.update_config_map_other ref (pointed cfg cm) after s,
        )
        | inr (x, e) ↦ ground (arith, (L.get_config_map_keeps ref w).0 s)
      ]

  -- A ConfigMap is left as it was in a dry run, where it is no target, and where all targets are on
  -- the secondary already.
  pub patch_config_maps-other :
      (refs : List Ref) (led : PatchLedger) (w : K.World) (s : Ref)
      → (cfg.dry_run ≡ true)
        ⊎ (has_ref refs s ≡ false)
        ⊎ (all_of (on_secondary K cfg w) refs ≡ true)
      → K.config_map (patch_config_maps K cfg refs led w).1 s ≡ K.config_map w s
  unfolding patch_config_maps has_ref
  patch_config_maps-other [] led w s h = refl
  patch_config_maps-other (ref ∷ refs) led w s h =
      let (led', w') = patch_one K cfg ref led w in
      patch_config_maps-other refs led' w' s (ground (arith, patch_one-keeps_all ref led w refs))
      ∙ patch_one-other ref led w s (ground arith)

  -- Where all targets are on the secondary, nothing is pending and nothing was patched.
  patch_one-idle :
      (ref : Ref) (led : PatchLedger) (w : K.World)
      → on_secondary K cfg w ref ≡ true
      → let out = (patch_one K cfg ref led w).0 in
        (out.pending ≡ led.pending) × (out.patched_ns ≡ led.patched_ns)
  unfolding patch_one patch_found
  patch_one-idle ref led w h = elim (Answer-cases (K.get_config_map ref w).0) [
    | inl (cm, e) ↦ ground (arith, L.get_config_map_ok ref w cm)
    | inr (x, e) ↦ ground arith
  ]

  pub patch_config_maps-idle :
      (refs : List Ref) (led : PatchLedger) (w : K.World)
      → all_of (on_secondary K cfg w) refs ≡ true
      → let out = (patch_config_maps K cfg refs led w).0 in
        (out.pending ≡ led.pending) × (out.patched_ns ≡ led.patched_ns)
  unfolding patch_config_maps
  patch_config_maps-idle [] led w h = (refl, refl)
  patch_config_maps-idle (ref ∷ refs) led w h =
      let (led', w') = patch_one K cfg ref led w in
      ground (
        arith,
        patch_one-idle ref led w,
        patch_config_maps-idle refs led' w' (patch_one-keeps_all ref led w refs (ground arith)),
      )
