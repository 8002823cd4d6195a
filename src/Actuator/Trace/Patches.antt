-- ===== src/Actuator/Trace/Patches.antt =====
-- The calls of the patch phase, whoever else writes to the cluster (pkg/actuator/k8s.go).
use couchbase_health_observe.Prelude.{
  Bool, true, false, ◌||◌, ◌≡◌, ◌⊎◌, refl, List, [], ◌∷◌, Option, Str, str_eq, str_eq_refl, arith,
  Bool-cases, Option-cases, inl, inr,
}
use couchbase_health_observe.Prelude.Dict.{contains}
use couchbase_health_observe.Actuator.Types.{Ref, Config, ref_eq, ref_eq_iff, has_ref}
use couchbase_health_observe.Actuator.Kube.{ConfigMap, get, Answer, ok, failed, Answer-cases, Kube}
use couchbase_health_observe.Actuator.Switch.{
  PatchLedger, repoint, patch_found, patch_one, patch_config_maps,
}
use couchbase_health_observe.Actuator.Switch.Reads.{pointed, pointed-holds}
use couchbase_health_observe.Actuator.Trace.{
  got_config_map, updated_config_map, Traced, traced, reached, IsProper, after,
}

module _ (K : Kube) (cfg : Config) where
  -- A round of the patch phase gets, and updates where the get shows another connection.
  patch_one-calls :
      (ref : Ref) (led : PatchLedger) (t : Traced K.World)
      → let calls' = (patch_one (traced K) cfg ref led t).1.calls in
        ((a : Answer ConfigMap) × (calls' ≡ got_config_map ref a ∷ t.calls))
        ⊎ ((cm : ConfigMap) × (err : Option Str) × (cfg.dry_run ≡ false)
            × (str_eq (get cm.content cfg.config_key) cfg.secondary ≡ false)
            × (calls'
                ≡ updated_config_map ref (pointed cfg cm) err
                  ∷ got_config_map ref (ok cm)
                  ∷ t.calls))
  unfolding patch_one patch_found repoint
  patch_one-calls ref led t =
      let after_get = (K.get_config_map ref t.world).1 in
      elim (Answer-cases (K.get_config_map ref t.world).0) [
        | inr (x, e) ↦ inl (failed x, ground arith)
        | inl (cm, e) ↦
            elim (Bool-cases
              (str_eq (get cm.content cfg.config_key) cfg.secondary || cfg.dry_run)) [
                | inl stays ↦ inl (ok cm, ground arith)
                | inr writes ↦
                    let err = (K.update_config_map ref (pointed cfg cm) after_get).0 in
                    inr (
                      cm,
                      err,
                      ground arith,
                      ground arith,
                      elim (Option-cases err) [
                        | inl done ↦ ground arith
                        | inr (x, refused) ↦ ground arith
                      ],
                    )
              ]
      ]

  patch_one-reached :
      (ref : Ref) (led : PatchLedger) (t : Traced K.World) (c : Ref)
      → reached cfg t.calls c ≡ true
      → reached cfg (patch_one (traced K) cfg ref led t).1.calls c ≡ true
  patch_one-reached ref led t c h = elim (patch_one-calls ref led t) [
    | inl (a, e) ↦ rw e (ground (arith, h))
    | inr (cm, err, real, off, e) ↦ rw e (ground (arith, h))
  ]

  patch_one-failed :
      (ref : Ref) (led : PatchLedger) (t : Traced K.World) (ns : Str)
      → contains led.failed_ns ns ≡ true
      → contains (patch_one (traced K) cfg ref led t).0.failed_ns ns ≡ true
  unfolding patch_one patch_found repoint contains
  patch_one-failed ref led t ns h = ground arith

  patch_one-settles :
      (ref : Ref) (led : PatchLedger) (t : Traced K.World)
      → cfg.dry_run ≡ false
      → let (led', t') = patch_one (traced K) cfg ref led t in
        (contains led'.failed_ns ref.namespace || reached cfg t'.calls ref) ≡ true
  unfolding patch_one patch_found repoint contains
  patch_one-settles ref led t real =
      let after_get = (K.get_config_map ref t.world).1 in
      elim (Answer-cases (K.get_config_map ref t.world).0) [
        | inr (x, e) ↦ ground (arith, str_eq_refl ref.namespace)
        | inl (cm, e) ↦ elim (Option-cases (K.update_config_map ref (pointed cfg cm) after_get).0) [
          | inl done ↦ ground (arith, (ref_eq_iff ref ref).1 refl, pointed-holds cfg cm)
          | inr (x, refused) ↦
              ground (arith, (ref_eq_iff ref ref).1 refl, str_eq_refl ref.namespace)
        ]
      ]

  patch_one-IsProper :
      (stamp : Str) (ref : Ref) (led : PatchLedger) (t : Traced K.World)
      → has_ref cfg.config_maps ref ≡ true
      → IsProper cfg stamp t.calls
      → IsProper cfg stamp (patch_one (traced K) cfg ref led t).1.calls
  patch_one-IsProper stamp ref led t target p = elim (patch_one-calls ref led t) [
    | inl (a, e) ↦ rw e (after p target)
    | inr (cm, err, real, off, e) ↦
        rw e (after (after p target) (real, (cm, t.calls, refl, off, refl)))
  ]

  -- The namespace of the ConfigMap is marked as failed, or the ConfigMap was on the secondary.
  abbrev pub settled : PatchLedger → Traced K.World → Ref → Bool
  settled led t c = contains led.failed_ns c.namespace || reached cfg t.calls c

  patch_config_maps-settled :
      (refs : List Ref) (led : PatchLedger) (t : Traced K.World) (c : Ref)
      → settled led t c ≡ true
      → let (led', t') = patch_config_maps (traced K) cfg refs led t in settled led' t' c ≡ true
  unfolding patch_config_maps
  patch_config_maps-settled [] led t c h = h
  patch_config_maps-settled (ref ∷ refs) led t c h =
      let (led', t') = patch_one (traced K) cfg ref led t in
      patch_config_maps-settled refs led' t' c
        (ground (arith, patch_one-reached ref led t c, patch_one-failed ref led t c.namespace))

  pub patch_config_maps-settles :
      (refs : List Ref) (led : PatchLedger) (t : Traced K.World) (c : Ref)
      → cfg.dry_run ≡ false
      → has_ref refs c ≡ true
      → let (led', t') = patch_config_maps (traced K) cfg refs led t in settled led' t' c ≡ true
  unfolding patch_config_maps has_ref
  patch_config_maps-settles [] led t c real m = cc
  patch_config_maps-settles (ref ∷ refs) led t c real m =
      let (led', t') = patch_one (traced K) cfg ref led t in
      elim (Bool-cases (ref_eq ref c)) [
        | inl same ↦ ground (
          arith,
          ref_eq_iff ref c,
          patch_one-settles ref led t real,
          patch_config_maps-settled refs led' t' c,
        )
        | inr other ↦ patch_config_maps-settles refs led' t' c real (ground arith)
      ]

  pub patch_config_maps-IsProper :
      (stamp : Str) (refs : List Ref) (led : PatchLedger) (t : Traced K.World)
      → ((r : Ref) → has_ref refs r ≡ true → has_ref cfg.config_maps r ≡ true)
      → IsProper cfg stamp t.calls
      → IsProper cfg stamp (patch_config_maps (traced K) cfg refs led t).1.calls
  unfolding patch_config_maps has_ref
  patch_config_maps-IsProper stamp [] led t sub p = p
  patch_config_maps-IsProper stamp (ref ∷ refs) led t sub p =
      let (led', t') = patch_one (traced K) cfg ref led t in
      let target = sub ref (ground (arith, (ref_eq_iff ref ref).1 refl)) in
      patch_config_maps-IsProper stamp refs led' t' (λ r m. sub r (ground arith))
        (patch_one-IsProper stamp ref led t target p)
