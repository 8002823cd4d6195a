-- ===== src/Actuator/Switch/Roll.antt =====
-- The roll phase of a switch (pkg/actuator/k8s.go).
use couchbase_health_observe.Prelude.{
  ℕ, true, false, ◌≡◌, refl, ◌∙◌, List, [], ◌∷◌, some, Str, arith, Bool-cases, Option-cases, inl,
  inr, ◌⊎◌, is_nil, is_nil-append_cons, all_of,
}
use couchbase_health_observe.Prelude.Dict.{contains}
use couchbase_health_observe.Actuator.Types.{
  Ref, Config, ref_eq, ref_eq_iff, has_ref, Error, roll_deployment_failed, get_deployment_failed,
}
use couchbase_health_observe.Actuator.Kube.{Deployment, Answer-cases, Kube, IsLawful}
use couchbase_health_observe.Actuator.Switch.{
  PatchLedger, stamp_deployment, roll_found, roll_one, roll_deployments,
}
use couchbase_health_observe.Actuator.Switch.Reads.{stamped, rolled_to, rolled_to-carries}

module _ (K : Kube) (L : IsLawful K) (cfg : Config) (led : PatchLedger) (stamp : Str) where
  -- A roll touches no ConfigMap.
  roll_one-config_map :
      (ref : Ref) (acc : ℕ × List Error) (w : K.World) (s : Ref)
      → K.config_map (roll_one K cfg led stamp ref acc w).1 s ≡ K.config_map w s
  unfolding roll_one roll_found stamp_deployment
  roll_one-config_map ref (rolled, errs) w s =
      let after = (K.get_deployment ref w).1 in
      elim (Answer-cases (K.get_deployment ref w).0) [
        | inl (d, e) ↦ ground (
          arith,
          (L.get_deployment_keeps ref w).0 s,
          L.update_deployment_config_map ref (rolled_to cfg stamp d) after s,
        )
        | inr (x, e) ↦ ground (arith, (L.get_deployment_keeps ref w).0 s)
      ]

  pub roll_deployments-config_map :
      (refs : List Ref) (acc : ℕ × List Error) (w : K.World) (s : Ref)
      → K.config_map (roll_deployments K cfg led stamp refs acc w).1 s ≡ K.config_map w s
  unfolding roll_deployments
  roll_deployments-config_map [] acc w s = refl
  roll_deployments-config_map (ref ∷ refs) acc w s =
      let (acc', w') = roll_one K cfg led stamp ref acc w in
      roll_deployments-config_map refs acc' w' s ∙ roll_one-config_map ref acc w s

  -- A Deployment whose namespace is marked, or that is no target, is left as it was.
  abbrev Spared : List Ref → Ref → Type 0
  Spared refs s = (contains led.failed_ns s.namespace ≡ true) ⊎ (has_ref refs s ≡ false)

  pub roll_one-spares :
      (ref : Ref) (acc : ℕ × List Error) (w : K.World) (s : Ref)
      → (contains led.failed_ns s.namespace ≡ true) ⊎ (ref_eq ref s ≡ false)
      → K.deployment (roll_one K cfg led stamp ref acc w).1 s ≡ K.deployment w s
  unfolding roll_one roll_found stamp_deployment
  roll_one-spares ref (rolled, errs) w s h =
      let after = (K.get_deployment ref w).1 in
      elim (Answer-cases (K.get_deployment ref w).0) [
        | inl (d, e) ↦ ground (
          arith,
          (L.get_deployment_keeps ref w).1 s,
          ref_eq_iff ref s,
          L.update_deployment_other ref (rolled_to cfg stamp d) after s,
        )
        | inr (x, e) ↦ ground (arith, (L.get_deployment_keeps ref w).1 s)
      ]

  pub roll_deployments-spares :
      (refs : List Ref) (acc : ℕ × List Error) (w : K.World) (s : Ref)
      → (contains led.failed_ns s.namespace ≡ true) ⊎ (has_ref refs s ≡ false)
      → K.deployment (roll_deployments K cfg led stamp refs acc w).1 s ≡ K.deployment w s
  unfolding roll_deployments has_ref
  roll_deployments-spares [] acc w s h = refl
  roll_deployments-spares (ref ∷ refs) acc w s h =
      let (acc', w') = roll_one K cfg led stamp ref acc w in
      roll_deployments-spares refs acc' w' s (ground arith)
      ∙ roll_one-spares ref acc w s (ground arith)

  -- A stamp, once there, stays.
  pub roll_one-keeps :
      (ref : Ref) (acc : ℕ × List Error) (w : K.World) (s : Ref)
      → stamped K cfg w s ≡ true
      → stamped K cfg (roll_one K cfg led stamp ref acc w).1 s ≡ true
  unfolding roll_one roll_found stamp_deployment
  roll_one-keeps ref (rolled, errs) w s h =
      let after = (K.get_deployment ref w).1 in
      elim (Answer-cases (K.get_deployment ref w).0) [
        | inl (d, e) ↦ ground (
          arith,
          (L.get_deployment_keeps ref w).1 s,
          ref_eq_iff ref s,
          L.update_deployment_other ref (rolled_to cfg stamp d) after s,
          L.update_deployment_any ref (rolled_to cfg stamp d) after,
          rolled_to-carries cfg stamp d,
        )
        | inr (x, e) ↦ ground (arith, (L.get_deployment_keeps ref w).1 s)
      ]

  pub roll_deployments-keeps :
      (refs : List Ref) (acc : ℕ × List Error) (w : K.World) (s : Ref)
      → stamped K cfg w s ≡ true
      → stamped K cfg (roll_deployments K cfg led stamp refs acc w).1 s ≡ true
  unfolding roll_deployments
  roll_deployments-keeps [] acc w s h = h
  roll_deployments-keeps (ref ∷ refs) acc w s h =
      let (acc', w') = roll_one K cfg led stamp ref acc w in
      roll_deployments-keeps refs acc' w' s (roll_one-keeps ref acc w s h)

  -- Errors told so far stay told.
  roll_one-errs :
      (ref : Ref) (acc : ℕ × List Error) (w : K.World)
      → is_nil (roll_one K cfg led stamp ref acc w).0.1 ≡ true
      → is_nil acc.1 ≡ true
  unfolding roll_one roll_found stamp_deployment
  roll_one-errs ref (rolled, errs) w h = grind (arith, is_nil-append_cons)

  roll_deployments-errs :
      (refs : List Ref) (acc : ℕ × List Error) (w : K.World)
      → is_nil (roll_deployments K cfg led stamp refs acc w).0.1 ≡ true
      → is_nil acc.1 ≡ true
  unfolding roll_deployments
  roll_deployments-errs [] acc w h = h
  roll_deployments-errs (ref ∷ refs) acc w h =
      let (acc', w') = roll_one K cfg led stamp ref acc w in
      roll_one-errs ref acc w (roll_deployments-errs refs acc' w' h)

  stamp_deployment-stamped :
      (ref : Ref) (d : Deployment) (acc : ℕ × List Error) (w : K.World)
      → is_nil (stamp_deployment K cfg stamp ref d acc w).0.1 ≡ true
      → stamped K cfg (stamp_deployment K cfg stamp ref d acc w).1 ref ≡ true
  unfolding stamp_deployment
  stamp_deployment-stamped ref d (rolled, errs) w quiet =
      elim (Option-cases (K.update_deployment ref (rolled_to cfg stamp d) w).0) [
        | inl done ↦ ground (
          arith,
          L.update_deployment_ok ref (rolled_to cfg stamp d) w,
          rolled_to-carries cfg stamp d,
        )
        | inr (e, refused) ↦
            ground (arith, is_nil-append_cons errs (roll_deployment_failed ref e) [])
      ]

  roll_one-stamped :
      (ref : Ref) (acc : ℕ × List Error) (w : K.World)
      → contains led.failed_ns ref.namespace ≡ false
      → is_nil (roll_one K cfg led stamp ref acc w).0.1 ≡ true
      → stamped K cfg (roll_one K cfg led stamp ref acc w).1 ref ≡ true
  unfolding roll_one roll_found
  roll_one-stamped ref (rolled, errs) w free quiet =
      let after = (K.get_deployment ref w).1 in
      elim (Answer-cases (K.get_deployment ref w).0) [
        | inl (d, e) ↦
            let here : K.deployment after ref ≡ some d =
              (L.get_deployment_keeps ref w).1 ref ∙ L.get_deployment_ok ref w d e in
            ground (arith, here, stamp_deployment-stamped ref d (rolled, errs) after)
        | inr (x, e) ↦ ground (arith, is_nil-append_cons errs (get_deployment_failed ref x) [])
      ]

  -- Where the roll told no error, every target whose namespace is not marked carries the stamp.
  pub roll_deployments-stamped :
      (refs : List Ref) (acc : ℕ × List Error) (w : K.World) (ref : Ref)
      → contains led.failed_ns ref.namespace ≡ false
      → is_nil (roll_deployments K cfg led stamp refs acc w).0.1 ≡ true
      → has_ref refs ref ≡ true
      → stamped K cfg (roll_deployments K cfg led stamp refs acc w).1 ref ≡ true
  unfolding roll_deployments has_ref
  roll_deployments-stamped [] acc w ref free quiet m = cc
  roll_deployments-stamped (r ∷ refs) acc w ref free quiet m =
      let (acc', w') = roll_one K cfg led stamp r acc w in
      elim (Bool-cases (ref_eq r ref)) [
        | inl same ↦ ground (
          arith,
          ref_eq_iff r ref,
          roll_one-stamped r acc w,
          roll_deployments-errs refs acc' w',
          roll_deployments-keeps refs acc' w' ref,
        )
        | inr other ↦ roll_deployments-stamped refs acc' w' ref free quiet (ground arith)
      ]

  -- Where nothing was patched, a round at a target that carries the stamp writes nothing.
  pub roll_one-idle :
      (ref : Ref) (acc : ℕ × List Error) (w : K.World) (s : Ref)
      → contains led.patched_ns ref.namespace ≡ false
      → stamped K cfg w ref ≡ true
      → K.deployment (roll_one K cfg led stamp ref acc w).1 s ≡ K.deployment w s
  unfolding roll_one roll_found
  roll_one-idle ref (rolled, errs) w s idle h =
      let after = (K.get_deployment ref w).1 in
      elim (Answer-cases (K.get_deployment ref w).0) [
        | inl (d, e) ↦ ground (
          arith,
          (L.get_deployment_keeps ref w).1 s,
          (L.get_deployment_keeps ref w).1 ref,
          L.get_deployment_ok ref w d,
        )
        | inr (x, e) ↦ ground (arith, (L.get_deployment_keeps ref w).1 s)
      ]

  pub roll_deployments-idle :
      (refs : List Ref) (acc : ℕ × List Error) (w : K.World) (s : Ref)
      → is_nil led.patched_ns ≡ true
      → all_of (stamped K cfg w) refs ≡ true
      → K.deployment (roll_deployments K cfg led stamp refs acc w).1 s ≡ K.deployment w s
  unfolding roll_deployments
  roll_deployments-idle [] acc w s idle h = refl
  roll_deployments-idle (ref ∷ refs) acc w s idle h =
      let (acc', w') = roll_one K cfg led stamp ref acc w in
      roll_deployments-idle refs acc' w' s idle (still refs (ground arith))
      ∙ roll_one-idle ref acc w s (unpatched ref.namespace) (ground arith)
    where
      unpatched : (ns : Str) → contains led.patched_ns ns ≡ false
      unpatched ns = unfold contains in ground arith

      still :
          (rs : List Ref)
          → all_of (stamped K cfg w) rs ≡ true
          → all_of (stamped K cfg (roll_one K cfg led stamp ref acc w).1) rs ≡ true
      still [] a = refl
      still (r ∷ rs) a = ground (arith, still rs, roll_one-keeps ref acc w r)
