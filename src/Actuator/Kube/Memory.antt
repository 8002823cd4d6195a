-- ===== src/Actuator/Kube/Memory.antt =====
-- A cluster in memory, in which chosen calls fail: it meets what is assumed of the Kubernetes API.
use couchbase_health_observe.Prelude.{
  Bool, true, false, ◌≡◌, refl, List, [], ◌∷◌, Option, none, some, bytes, if◌then◌else◌, arith,
}
use couchbase_health_observe.Actuator.Types.{Ref, ref_eq, ref_eq_iff, has_ref}
use couchbase_health_observe.Actuator.Kube.{
  ConfigMap, Deployment, Answer, ok, failed, Kube, IsLawful,
}

unfoldable pub find {ℓ} : {V : Type ℓ} → Ref → List (Ref × V) → Option V
find r [] = none
find r ((s, v) ∷ m) = if ref_eq s r then some v else find r m

-- The objects, a later entry in front, and the objects whose gets or updates fail.
pub record Cluster : Type 0 where
  pub config_maps : List (Ref × ConfigMap)
  pub deployments : List (Ref × Deployment)
  pub unreadable : List Ref
  pub read_only : List Ref

abbrev to_answer : {V : Type 0} → Bool → Option V → Answer V
to_answer true o = failed (bytes "forbidden")
to_answer false none = failed (bytes "not found")
to_answer false (some v) = ok v

abbrev pub memory : Kube
memory = record {
  World = Cluster;
  config_map = λ w r. find r w.config_maps;
  deployment = λ w r. find r w.deployments;
  get_config_map = λ r w. (to_answer (has_ref w.unreadable r) (find r w.config_maps), w);
  update_config_map = λ r cm w.
      if has_ref w.read_only r
      then (some (bytes "conflict"), w)
      else (none, record w { config_maps = (r, cm) ∷ w.config_maps });
  get_deployment = λ r w. (to_answer (has_ref w.unreadable r) (find r w.deployments), w);
  update_deployment = λ r d w.
      if has_ref w.read_only r
      then (some (bytes "conflict"), w)
      else (none, record w { deployments = (r, d) ∷ w.deployments });
}

self_eq : (r : Ref) → ref_eq r r ≡ true
self_eq r = (ref_eq_iff r r).1 refl

pub memory-IsLawful : IsLawful memory
unfolding find
memory-IsLawful = record {
  get_config_map_keeps = λ r w. (λ s. refl, λ s. refl);
  get_config_map_ok = λ r w cm e. ground arith;
  update_config_map_ok = λ r cm w e. ground (arith, self_eq r);
  update_config_map_any = λ r cm w. ground (arith, self_eq r);
  update_config_map_other = λ r cm w s e. ground arith;
  update_config_map_deployment = λ r cm w s. ground arith;
  get_deployment_keeps = λ r w. (λ s. refl, λ s. refl);
  get_deployment_ok = λ r w d e. ground arith;
  update_deployment_ok = λ r d w e. ground (arith, self_eq r);
  update_deployment_any = λ r d w. ground (arith, self_eq r);
  update_deployment_other = λ r d w s e. ground arith;
  update_deployment_config_map = λ r d w s. ground arith;
}
