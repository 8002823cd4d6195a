-- ===== src/Actuator/Journal/Rolled.antt =====
-- What the lines of the roll phase tell (pkg/actuator/k8s.go).
use couchbase_health_observe.Prelude.{
  ℕ, true, false, ◌≡◌, refl, ◌∙◌, List, [], ◌∷◌, none, Str, arith, Option-cases, inl, inr,
}
use couchbase_health_observe.Actuator.Types.{Ref, Config, ref_eq_iff, Error, roll_deployment_failed}
use couchbase_health_observe.Actuator.Kube.{Answer-cases, Kube, IsLawful}
use couchbase_health_observe.Actuator.Switch.{
  PatchLedger, stamp_deployment, roll_found, roll_one, roll_deployments,
}
use couchbase_health_observe.Actuator.Switch.Reads.{stamped, rolled_to, rolled_to-carries}
use couchbase_health_observe.Actuator.Journal.{roll_one_lines, stamp_lines, roll_lines}
use couchbase_health_observe.Actuator.Journal.Reads.{
  logged_from, logged_from-append, logged_roll, tells_roll, roll_refused, any_of-append,
  refuses_roll,
}

module _ (K : Kube) (L : IsLawful K) (cfg : Config) (led : PatchLedger) (stamp : Str) where
  -- A round names the refused update of a Deployment that it changed without a line.
  roll_one-tells :
      (ref : Ref) (acc : ℕ × List Error) (w : K.World) (d : Ref)
      → logged_roll (roll_one_lines K cfg led stamp ref w) d ≡ false
      → roll_refused (roll_one K cfg led stamp ref acc w).0.1 d ≡ false
      → K.deployment (roll_one K cfg led stamp ref acc w).1 d ≡ K.deployment w d
  unfolding roll_one roll_found stamp_deployment roll_one_lines stamp_lines
  roll_one-tells ref (rolled, errs) w d silent unnamed =
      let after = (K.get_deployment ref w).1 in
      elim (Answer-cases (K.get_deployment ref w).0) [
        | inl (dep, e) ↦
            elim (Option-cases (K.update_deployment ref (rolled_to cfg stamp dep) after).0) [
              | inl done ↦ ground (
                arith,
                (L.get_deployment_keeps ref w).1 d,
                L.update_deployment_other ref (rolled_to cfg stamp dep) after d,
              )
              | inr (x, refused) ↦ ground (
                arith,
                (L.get_deployment_keeps ref w).1 d,
                L.update_deployment_other ref (rolled_to cfg stamp dep) after d,
                any_of-append (refuses_roll d) errs (roll_deployment_failed ref x ∷ []),
              )
            ]
        | inr (x, e) ↦ ground (arith, (L.get_deployment_keeps ref w).1 d)
      ]

  roll_one-unnamed :
      (ref : Ref) (acc : ℕ × List Error) (w : K.World) (d : Ref)
      → roll_refused (roll_one K cfg led stamp ref acc w).0.1 d ≡ false
      → roll_refused acc.1 d ≡ false
  unfolding roll_one roll_found stamp_deployment
  roll_one-unnamed ref (rolled, errs) w d unnamed = grind (arith, any_of-append)

  -- A line tells of a Deployment that now carries the stamp.
  pub roll_one-logged :
      (ref : Ref) (acc : ℕ × List Error) (w : K.World) (d : Ref)
      → logged_roll (roll_one_lines K cfg led stamp ref w) d ≡ true
      → stamped K cfg (roll_one K cfg led stamp ref acc w).1 d ≡ true
  unfolding roll_one roll_found stamp_deployment roll_one_lines stamp_lines
  roll_one-logged ref (rolled, errs) w d told =
      let after = (K.get_deployment ref w).1 in
      elim (Answer-cases (K.get_deployment ref w).0) [
        | inl (dep, e) ↦ ground (
          arith,
          ref_eq_iff ref d,
          L.update_deployment_ok ref (rolled_to cfg stamp dep) after,
          rolled_to-carries cfg stamp dep,
        )
        | inr (x, e) ↦ ground arith
      ]

  roll_deployments-unnamed :
      (refs : List Ref) (acc : ℕ × List Error) (w : K.World) (d : Ref)
      → roll_refused (roll_deployments K cfg led stamp refs acc w).0.1 d ≡ false
      → roll_refused acc.1 d ≡ false
  unfolding roll_deployments
  roll_deployments-unnamed [] acc w d unnamed = unnamed
  roll_deployments-unnamed (ref ∷ refs) acc w d unnamed =
      let (acc', w') = roll_one K cfg led stamp ref acc w in
      roll_one-unnamed ref acc w d (roll_deployments-unnamed refs acc' w' d unnamed)

  pub roll_deployments-tells :
      (refs : List Ref) (acc : ℕ × List Error) (w : K.World) (d : Ref)
      → logged_roll (roll_lines K cfg led stamp refs acc w) d ≡ false
      → roll_refused (roll_deployments K cfg led stamp refs acc w).0.1 d ≡ false
      → K.deployment (roll_deployments K cfg led stamp refs acc w).1 d ≡ K.deployment w d
  unfolding roll_deployments roll_lines
  roll_deployments-tells [] acc w d silent unnamed = refl
  roll_deployments-tells (ref ∷ refs) acc w d silent unnamed =
      let (acc', w') = roll_one K cfg led stamp ref acc w in
      let here = roll_one_lines K cfg led stamp ref w in
      let both = any_of-append (tells_roll d) here (roll_lines K cfg led stamp refs acc' w') in
      roll_deployments-tells refs acc' w' d (ground (arith, both)) unnamed
      ∙ roll_one-tells ref acc w d (ground (arith, both))
          (roll_deployments-unnamed refs acc' w' d unnamed)

  -- The roll phase has no line of a patch.
  roll_one-no_from :
      (ref : Ref) (w : K.World) (c : Ref)
      → logged_from (roll_one_lines K cfg led stamp ref w) c ≡ none
  unfolding roll_one_lines stamp_lines logged_from
  roll_one-no_from ref w c = ground arith

  pub roll_deployments-no_from :
      (refs : List Ref) (acc : ℕ × List Error) (w : K.World) (c : Ref)
      → logged_from (roll_lines K cfg led stamp refs acc w) c ≡ none
  unfolding roll_lines logged_from
  roll_deployments-no_from [] acc w c = refl
  roll_deployments-no_from (ref ∷ refs) acc w c =
      let (acc', w') = roll_one K cfg led stamp ref acc w in
      let here = roll_one_lines K cfg led stamp ref w in
      ground (
        arith,
        logged_from-append here (roll_lines K cfg led stamp refs acc' w') c,
        roll_one-no_from ref w c,
        roll_deployments-no_from refs acc' w' c,
      )
