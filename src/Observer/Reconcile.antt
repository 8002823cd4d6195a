-- ===== src/Observer/Reconcile.antt =====
-- `reconcileAlreadySwitched` and `secondaryReady` (cmd/svchealthcheck/main.go).
use couchbase_health_observe.Prelude.{
  Bool, true, false, not, ◌||◌, ◌≡◌, ◌≢◌, ◌⊎◌, refl, List, [], ◌∷◌, is_nil, str_eq, if◌then◌else◌,
  arith, inl, inr,
}
use couchbase_health_observe.Svchealth.Types.{Status, is_down}
use couchbase_health_observe.Actuator.Types.{Ref, Config, ref_eq_iff, has_ref}
use couchbase_health_observe.Actuator.Kube.{
  ConfigMap, get, Answer, ok, failed, Answer-cases, Kube, SameServer, IsLawful,
}
use couchbase_health_observe.Actuator.Switch.Reads.{on_secondary}

unfoldable pub secondary_ready : Status → Bool
secondary_ready status = not (is_down status)

module _ (K : Kube) (cfg : Config) where
  abbrev pub is_stale : Answer ConfigMap → Bool
  is_stale (failed e) = true
  is_stale (ok cm) = not (str_eq (get cm.content cfg.config_key) cfg.secondary)

  -- The loop over the refs: those not on the secondary, unreadable ones included.
  unfoldable pub stale_refs : List Ref → K.World → List Ref × K.World
  stale_refs [] w = ([], w)
  stale_refs (ref ∷ refs) w =
      let (answer, w1) = K.get_config_map ref w in
      let (stale, w2) = stale_refs refs w1 in
      (if is_stale answer then (ref ∷ stale, w2) else (stale, w2))

  unfoldable pub reconcile_already_switched : K.World → (Bool × List Ref) × K.World
  unfolding stale_refs
  reconcile_already_switched w =
      let (stale, w') = stale_refs cfg.config_maps w in
      if is_nil cfg.secondary || is_nil cfg.config_maps
      then ((false, []), w)
      else ((is_nil stale, stale), w')

module _ (K : Kube) (L : IsLawful K) (cfg : Config) where
  stale_refs-keeps : (refs : List Ref) (w : K.World) → SameServer K (stale_refs K cfg refs w).1 w
  unfolding stale_refs
  stale_refs-keeps [] w = (λ r. refl, λ r. refl)
  stale_refs-keeps (ref ∷ refs) w =
      let w1 = (K.get_config_map ref w).1 in
      (
        λ r. ground (arith, (stale_refs-keeps refs w1).0 r, (L.get_config_map_keeps ref w).0 r),
        λ r. ground (arith, (stale_refs-keeps refs w1).1 r, (L.get_config_map_keeps ref w).1 r),
      )

  stale_refs-covers :
      (refs : List Ref) (w : K.World) (r : Ref)
      → has_ref refs r ≡ true
      → (on_secondary K cfg w r ≡ true) ⊎ (has_ref (stale_refs K cfg refs w).0 r ≡ true)
  unfolding stale_refs has_ref
  stale_refs-covers [] w r m = cc
  stale_refs-covers (ref ∷ refs) w r m =
      let w1 = (K.get_config_map ref w).1 in
      elim (Answer-cases (K.get_config_map ref w).0) [
        | inl (cm, e) ↦ ground (
          arith,
          ref_eq_iff ref r,
          L.get_config_map_ok ref w cm,
          (L.get_config_map_keeps ref w).0 r,
          stale_refs-covers refs w1 r,
        )
        | inr (x, e) ↦
            ground (arith, (L.get_config_map_keeps ref w).0 r, stale_refs-covers refs w1 r)
      ]

  -- Over an API that keeps its laws, the reconcile writes nothing. Every target is on the secondary
  -- or is named as pending, unless the secondary or the list of targets is empty; and it reports
  -- that all are switched only where each target holds the secondary, neither of the two being
  -- empty.
  pub reconcile_sound :
      (w : K.World)
      → let ((switched, stale), w') = reconcile_already_switched K cfg w in
        SameServer K w' w
        × (switched ≡ true
            → (cfg.secondary ≢ [])
              × (cfg.config_maps ≢ [])
              × ((r : Ref) → has_ref cfg.config_maps r ≡ true → on_secondary K cfg w r ≡ true))
        × ((is_nil cfg.secondary || is_nil cfg.config_maps) ≡ false
            → (r : Ref) → has_ref cfg.config_maps r ≡ true
            → (on_secondary K cfg w r ≡ true) ⊎ (has_ref stale r ≡ true))
  unfolding reconcile_already_switched has_ref
  reconcile_sound w = (
    (
      λ r. ground (arith, (stale_refs-keeps cfg.config_maps w).0 r),
      λ r. ground (arith, (stale_refs-keeps cfg.config_maps w).1 r),
    ),
    λ h. (ground arith, ground arith, λ r m. ground (arith, stale_refs-covers cfg.config_maps w r)),
    λ some_target r m. ground (arith, stale_refs-covers cfg.config_maps w r),
  )

-- Every read of the list answers, one after the other.
unfoldable pub all_read : (K : Kube) → List Ref → K.World → Bool
all_read K [] w = true
all_read K (ref ∷ refs) w =
    let (answer, w1) = K.get_config_map ref w in
    let rest = all_read K refs w1 in elim answer [ ok cm ↦ rest | failed e ↦ false ]

module _ (K : Kube) (L : IsLawful K) (cfg : Config) where
  stale_refs-none :
      (refs : List Ref) (w : K.World)
      → all_read K refs w ≡ true
      → ((r : Ref) → has_ref refs r ≡ true → on_secondary K cfg w r ≡ true)
      → (stale_refs K cfg refs w).0 ≡ []
  unfolding all_read stale_refs has_ref
  stale_refs-none [] w answers here = refl
  stale_refs-none (ref ∷ refs) w answers here =
      let w1 = (K.get_config_map ref w).1 in
      elim (Answer-cases (K.get_config_map ref w).0) [
        | inr (x, e) ↦ absurd (ground (arith, answers, e))
        | inl (cm, e) ↦
            let first = here ref (ground (arith, ref_eq_iff ref ref)) in
            let later =
              stale_refs-none refs w1 (ground (arith, answers, e))
                (λ r m. ground (arith, here r, (L.get_config_map_keeps ref w).0 r, m)) in
            ground (arith, first, later, e, L.get_config_map_ok ref w cm e)
      ]

  -- Where all targets are on the secondary and every read answers, the reconcile says so.
  pub reconcile_complete :
      (w : K.World)
      → (is_nil cfg.secondary || is_nil cfg.config_maps) ≡ false
      → all_read K cfg.config_maps w ≡ true
      → ((r : Ref) → has_ref cfg.config_maps r ≡ true → on_secondary K cfg w r ≡ true)
      → (reconcile_already_switched K cfg w).0.0 ≡ true
  unfolding reconcile_already_switched
  reconcile_complete w some_target answers here =
      ground (arith, some_target, stale_refs-none cfg.config_maps w answers here)
