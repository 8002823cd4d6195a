-- ===== src/Actuator/Journal/Patched.antt =====
-- What the lines of the patch phase tell (pkg/actuator/k8s.go).
use couchbase_health_observe.Prelude.{
  true, false, ◌≡◌, refl, ◌∙◌, List, [], ◌∷◌, none, arith, Option-cases, inl, inr, ◌⊎◌,
}
use couchbase_health_observe.Actuator.Types.{Ref, Config, ref_eq_iff, update_config_map_failed}
use couchbase_health_observe.Actuator.Kube.{Answer-cases, Kube, IsLawful}
use couchbase_health_observe.Actuator.Switch.{
  PatchLedger, repoint, patch_found, patch_one, patch_config_maps,
}
use couchbase_health_observe.Actuator.Switch.Reads.{on_secondary, pointed, pointed-holds}
use couchbase_health_observe.Actuator.Journal.{patch_one_lines, repoint_lines, patch_lines}
use couchbase_health_observe.Actuator.Journal.Reads.{
  logged_from, logged_from-append, patch_refused, any_of-append, refuses_patch,
}

module _ (K : Kube) (L : IsLawful K) (cfg : Config) where
  -- A round names the refused update of a ConfigMap that it changed without a line.
  patch_one-tells :
      (ref : Ref) (led : PatchLedger) (w : K.World) (c : Ref)
      → logged_from (patch_one_lines K cfg ref w) c ≡ none
      → patch_refused (patch_one K cfg ref led w).0.errs c ≡ false
      → K.config_map (patch_one K cfg ref led w).1 c ≡ K.config_map w c
  unfolding patch_one patch_found repoint patch_one_lines repoint_lines logged_from
  patch_one-tells ref led w c silent unnamed =
      let after = (K.get_config_map ref w).1 in
      elim (Answer-cases (K.get_config_map ref w).0) [
        | inl (cm, e) ↦ elim (Option-cases (K.update_config_map ref (pointed cfg cm) after).0) [
          | inl done ↦ ground (
            arith,
            (L.get_config_map_keeps ref w).0 c,
            L.update_config_map_other ref (pointed cfg cm) after c,
          )
          | inr (x, refused) ↦ ground (
            arith,
            (L.get_config_map_keeps ref w).0 c,
            L.update_config_map_other ref (pointed cfg cm) after c,
            any_of-append (refuses_patch c) led.errs (update_config_map_failed ref x ∷ []),
          )
        ]
        | inr (x, e) ↦ ground (arith, (L.get_config_map_keeps ref w).0 c)
      ]

  patch_one-unnamed :
      (ref : Ref) (led : PatchLedger) (w : K.World) (c : Ref)
      → patch_refused (patch_one K cfg ref led w).0.errs c ≡ false
      → patch_refused led.errs c ≡ false
  unfolding patch_one patch_found repoint
  patch_one-unnamed ref led w c unnamed = grind (arith, any_of-append)

  -- A round leaves a ConfigMap as it was, or on the secondary.
  pub patch_one-writes :
      (ref : Ref) (led : PatchLedger) (w : K.World) (c : Ref)
      → let w' = (patch_one K cfg ref led w).1 in
        (K.config_map w' c ≡ K.config_map w c) ⊎ (on_secondary K cfg w' c ≡ true)
  unfolding patch_one patch_found repoint
  patch_one-writes ref led w c =
      let after = (K.get_config_map ref w).1 in
      elim (Answer-cases (K.get_config_map ref w).0) [
        | inl (cm, e) ↦ ground (
          arith,
          (L.get_config_map_keeps ref w).0 c,
          ref_eq_iff ref c,
          L.update_config_map_other ref (pointed cfg cm) after c,
          L.update_config_map_any ref (pointed cfg cm) after,
          pointed-holds cfg cm,
        )
        | inr (x, e) ↦ ground (arith, (L.get_config_map_keeps ref w).0 c)
      ]

  patch_config_maps-unnamed :
      (refs : List Ref) (led : PatchLedger) (w : K.World) (c : Ref)
      → patch_refused (patch_config_maps K cfg refs led w).0.errs c ≡ false
      → patch_refused led.errs c ≡ false
  unfolding patch_config_maps
  patch_config_maps-unnamed [] led w c unnamed = unnamed
  patch_config_maps-unnamed (ref ∷ refs) led w c unnamed =
      let (led', w') = patch_one K cfg ref led w in
      patch_one-unnamed ref led w c (patch_config_maps-unnamed refs led' w' c unnamed)

  pub patch_config_maps-tells :
      (refs : List Ref) (led : PatchLedger) (w : K.World) (c : Ref)
      → logged_from (patch_lines K cfg refs led w) c ≡ none
      → patch_refused (patch_config_maps K cfg refs led w).0.errs c ≡ false
      → K.config_map (patch_config_maps K cfg refs led w).1 c ≡ K.config_map w c
  unfolding patch_config_maps patch_lines
  patch_config_maps-tells [] led w c silent unnamed = refl
  patch_config_maps-tells (ref ∷ refs) led w c silent unnamed =
      let (led', w') = patch_one K cfg ref led w in
      let both =
        logged_from-append (patch_one_lines K cfg ref w) (patch_lines K cfg refs led' w') c in
      elim (Option-cases (logged_from (patch_one_lines K cfg ref w) c)) [
        | inl here ↦
            patch_config_maps-tells refs led' w' c (ground arith) unnamed
            ∙ patch_one-tells ref led w c here (patch_config_maps-unnamed refs led' w' c unnamed)
        | inr (old, told) ↦ ground arith
      ]
