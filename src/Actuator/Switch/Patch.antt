-- ===== src/Actuator/Switch/Patch.antt =====
-- The patch phase of a switch (pkg/actuator/k8s.go).
use couchbase_health_observe.Prelude.{
  ◌+◌, true, false, ◌≡◌, ◌∙◌, List, [], ◌∷◌, some, Str, str_eq_refl, arith, Bool-cases,
  Option-cases, inl, inr, ◌⊎◌, is_nil, is_nil-append_cons,
}
use couchbase_health_observe.Prelude.Dict.{contains}
use couchbase_health_observe.Actuator.Types.{Ref, Config, ref_eq, ref_eq_iff, has_ref}
use couchbase_health_observe.Actuator.Kube.{ConfigMap, Answer-cases, Kube, IsLawful}
use couchbase_health_observe.Actuator.Switch.{
  PatchLedger, repoint, patch_found, patch_one, patch_config_maps,
}
use couchbase_health_observe.Actuator.Switch.Reads.{on_secondary, pointed, pointed-holds}

module _ (K : Kube) (L : IsLawful K) (cfg : Config) where
  repoint-keeps :
      (ref : Ref) (cm : ConfigMap) (led : PatchLedger) (w : K.World) (s : Ref)
      → on_secondary K cfg w s ≡ true
      → on_secondary K cfg (repoint K cfg ref cm led w).1 s ≡ true
  unfolding repoint
  repoint-keeps ref cm led w s h = elim (Bool-cases (ref_eq ref s)) [
    | inl same ↦ ground (
      arith,
      ref_eq_iff ref s,
      L.update_config_map_any ref (pointed cfg cm) w,
      pointed-holds cfg cm,
    )
    | inr other ↦ ground (arith, L.update_config_map_other ref (pointed cfg cm) w s)
  ]

  patch_found-keeps :
      (ref : Ref) (cm : ConfigMap) (led : PatchLedger) (w : K.World) (s : Ref)
      → on_secondary K cfg w s ≡ true
      → on_secondary K cfg (patch_found K cfg ref cm led w).1 s ≡ true
  unfolding patch_found
  patch_found-keeps ref cm led w s h =
      ground (arith, repoint-keeps ref cm (record led { pending = led.pending + 1 }) w s)

  pub patch_one-keeps :
      (ref : Ref) (led : PatchLedger) (w : K.World) (s : Ref)
      → on_secondary K cfg w s ≡ true
      → on_secondary K cfg (patch_one K cfg ref led w).1 s ≡ true
  unfolding patch_one
  patch_one-keeps ref led w s h =
      let after = (K.get_config_map ref w).1 in
      let still : on_secondary K cfg after s ≡ true =
        ground (arith, (L.get_config_map_keeps ref w).0 s) in
      elim (Answer-cases (K.get_config_map ref w).0) [
        | inl (cm, e) ↦ rw (e, patch_one) (patch_found-keeps ref cm led after s still)
        | inr (x, e) ↦ rw (e, patch_one) still
      ]

  pub patch_config_maps-keeps :
      (refs : List Ref) (led : PatchLedger) (w : K.World) (s : Ref)
      → on_secondary K cfg w s ≡ true
      → on_secondary K cfg (patch_config_maps K cfg refs led w).1 s ≡ true
  unfolding patch_config_maps
  patch_config_maps-keeps [] led w s h = h
  patch_config_maps-keeps (ref ∷ refs) led w s h =
      let (led', w') = patch_one K cfg ref led w in
      patch_config_maps-keeps refs led' w' s (patch_one-keeps ref led w s h)

  -- Outside a dry run a target ends on the secondary, or its namespace is marked.
  abbrev Settled : Ref → PatchLedger × K.World → Type 0
  Settled ref out =
      (on_secondary K cfg out.1 ref ≡ true) ⊎ (contains out.0.failed_ns ref.namespace ≡ true)

  repoint-Settled :
      (ref : Ref) (cm : ConfigMap) (led : PatchLedger) (w : K.World)
      → Settled ref (repoint K cfg ref cm led w)
  unfolding repoint contains
  repoint-Settled ref cm led w =
      elim (Option-cases (K.update_config_map ref (pointed cfg cm) w).0) [
        | inl done ↦
            inl
              (ground (arith, L.update_config_map_ok ref (pointed cfg cm) w, pointed-holds cfg cm))
        | inr (e, refused) ↦ inr (rw (refused, repoint) (ground (arith, str_eq_refl ref.namespace)))
      ]

  patch_one-Settled :
      (ref : Ref) (led : PatchLedger) (w : K.World)
      → cfg.dry_run ≡ false
      → Settled ref (patch_one K cfg ref led w)
  unfolding patch_one patch_found contains
  patch_one-Settled ref led w real =
      let after = (K.get_config_map ref w).1 in
      elim (Answer-cases (K.get_config_map ref w).0) [
        | inl (cm, e) ↦
            let here : K.config_map after ref ≡ some cm =
              (L.get_config_map_keeps ref w).0 ref ∙ L.get_config_map_ok ref w cm e in
            ground
              (arith, here, repoint-Settled ref cm (record led { pending = led.pending + 1 }) after)
        | inr (x, e) ↦ inr (ground (arith, str_eq_refl ref.namespace))
      ]

  patch_one-failed_ns :
      (ref : Ref) (led : PatchLedger) (w : K.World) (ns : Str)
      → contains led.failed_ns ns ≡ true
      → contains (patch_one K cfg ref led w).0.failed_ns ns ≡ true
  unfolding patch_one patch_found repoint contains
  patch_one-failed_ns ref led w ns h = ground arith

  patch_config_maps-failed_ns :
      (refs : List Ref) (led : PatchLedger) (w : K.World) (ns : Str)
      → contains led.failed_ns ns ≡ true
      → contains (patch_config_maps K cfg refs led w).0.failed_ns ns ≡ true
  unfolding patch_config_maps
  patch_config_maps-failed_ns [] led w ns h = h
  patch_config_maps-failed_ns (ref ∷ refs) led w ns h =
      let (led', w') = patch_one K cfg ref led w in
      patch_config_maps-failed_ns refs led' w' ns (patch_one-failed_ns ref led w ns h)

  pub patch_config_maps-Settled :
      (refs : List Ref) (led : PatchLedger) (w : K.World) (ref : Ref)
      → cfg.dry_run ≡ false
      → has_ref refs ref ≡ true
      → Settled ref (patch_config_maps K cfg refs led w)
  unfolding patch_config_maps has_ref
  patch_config_maps-Settled [] led w ref real m = cc
  patch_config_maps-Settled (r ∷ refs) led w ref real m =
      let (led', w') = patch_one K cfg r led w in
      elim (Bool-cases (ref_eq r ref)) [
        | inl same ↦ ground (
          arith,
          ref_eq_iff r ref,
          patch_one-Settled r led w real,
          patch_config_maps-keeps refs led' w' ref,
          patch_config_maps-failed_ns refs led' w' ref.namespace,
        )
        | inr other ↦ patch_config_maps-Settled refs led' w' ref real (ground arith)
      ]

  -- An error is told exactly where a namespace is marked.
  patch_one-errs :
      (ref : Ref) (led : PatchLedger) (w : K.World)
      → is_nil led.errs ≡ is_nil led.failed_ns
      → is_nil (patch_one K cfg ref led w).0.errs ≡ is_nil (patch_one K cfg ref led w).0.failed_ns
  unfolding patch_one patch_found repoint
  patch_one-errs ref led w h = grind (arith, is_nil-append_cons)

  pub patch_config_maps-errs :
      (refs : List Ref) (led : PatchLedger) (w : K.World)
      → is_nil led.errs ≡ is_nil led.failed_ns
      → let out = (patch_config_maps K cfg refs led w).0 in is_nil out.errs ≡ is_nil out.failed_ns
  unfolding patch_config_maps
  patch_config_maps-errs [] led w h = h
  patch_config_maps-errs (ref ∷ refs) led w h =
      let (led', w') = patch_one K cfg ref led w in
      patch_config_maps-errs refs led' w' (patch_one-errs ref led w h)
