-- ===== src/Actuator/Crash/Laws.antt =====
-- An API whose calls come to an end keeps the laws of the API (pkg/actuator/k8s.go).
use couchbase_health_observe.Prelude.{zero, suc, ◌≡◌, refl, ◌⊎◌, inl, inr, ℕ, arith, some}
use couchbase_health_observe.Actuator.Kube.{failed, Kube, IsLawful}
use couchbase_health_observe.Actuator.Crash.{call_at, mortal, stopped}

-- A call is refused and changes nothing, or is made.
call_at-cases :
    {W A : Type 0} (refused : A) (f : W → A × W) (n : ℕ) (w : W)
    → ((call_at refused f n w).0 ≡ refused × (call_at refused f n w).1.world ≡ w)
      ⊎ ((call_at refused f n w).0 ≡ (f w).0 × (call_at refused f n w).1.world ≡ (f w).1)
unfolding call_at
call_at-cases refused f zero w = inl (refl, refl)
call_at-cases refused f (suc n) w = inr (refl, refl)

pub mortal-IsLawful : (K : Kube) → IsLawful K → IsLawful (mortal K)
mortal-IsLawful K L = record {
  get_config_map_keeps = λ r m. (
    λ s. ground (
      arith,
      call_at-cases (failed stopped) (K.get_config_map r) m.left m.world,
      (L.get_config_map_keeps r m.world).0 s,
    ),
    λ s. ground (
      arith,
      call_at-cases (failed stopped) (K.get_config_map r) m.left m.world,
      (L.get_config_map_keeps r m.world).1 s,
    ),
  );
  get_config_map_ok = λ r m cm e. ground (
    arith,
    call_at-cases (failed stopped) (K.get_config_map r) m.left m.world,
    L.get_config_map_ok r m.world cm,
  );
  update_config_map_ok = λ r cm m e. ground (
    arith,
    call_at-cases (some stopped) (K.update_config_map r cm) m.left m.world,
    L.update_config_map_ok r cm m.world,
  );
  update_config_map_any = λ r cm m. ground (
    arith,
    call_at-cases (some stopped) (K.update_config_map r cm) m.left m.world,
    L.update_config_map_any r cm m.world,
  );
  update_config_map_other = λ r cm m s e. ground (
    arith,
    call_at-cases (some stopped) (K.update_config_map r cm) m.left m.world,
    L.update_config_map_other r cm m.world s,
  );
  update_config_map_deployment = λ r cm m s. ground (
    arith,
    call_at-cases (some stopped) (K.update_config_map r cm) m.left m.world,
    L.update_config_map_deployment r cm m.world s,
  );
  get_deployment_keeps = λ r m. (
    λ s. ground (
      arith,
      call_at-cases (failed stopped) (K.get_deployment r) m.left m.world,
      (L.get_deployment_keeps r m.world).0 s,
    ),
    λ s. ground (
      arith,
      call_at-cases (failed stopped) (K.get_deployment r) m.left m.world,
      (L.get_deployment_keeps r m.world).1 s,
    ),
  );
  get_deployment_ok = λ r m d e. ground (
    arith,
    call_at-cases (failed stopped) (K.get_deployment r) m.left m.world,
    L.get_deployment_ok r m.world d,
  );
  update_deployment_ok = λ r d m e. ground (
    arith,
    call_at-cases (some stopped) (K.update_deployment r d) m.left m.world,
    L.update_deployment_ok r d m.world,
  );
  update_deployment_any = λ r d m. ground (
    arith,
    call_at-cases (some stopped) (K.update_deployment r d) m.left m.world,
    L.update_deployment_any r d m.world,
  );
  update_deployment_other = λ r d m s e. ground (
    arith,
    call_at-cases (some stopped) (K.update_deployment r d) m.left m.world,
    L.update_deployment_other r d m.world s,
  );
  update_deployment_config_map = λ r d m s. ground (
    arith,
    call_at-cases (some stopped) (K.update_deployment r d) m.left m.world,
    L.update_deployment_config_map r d m.world s,
  );
}
