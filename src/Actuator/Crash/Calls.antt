-- ===== src/Actuator/Crash/Calls.antt =====
-- How many calls to the API a switch makes (pkg/actuator/k8s.go).
use couchbase_health_observe.Prelude.{
  ℕ, zero, suc, ◌+◌, ◌*◌, ◌≤◌, ◌≡◌, refl, List, [], ◌∷◌, Str, arith, some, Option-cases, inl, inr,
  length,
}
use couchbase_health_observe.Actuator.Types.{Ref, Config, Error}
use couchbase_health_observe.Actuator.Kube.{failed, Answer-cases, Kube}
use couchbase_health_observe.Actuator.Switch.{
  PatchLedger, empty_ledger, repoint, patch_found, patch_one, patch_config_maps, stamp_deployment,
  roll_found, roll_one, roll_deployments, switch,
}
use couchbase_health_observe.Actuator.Switch.Reads.{pointed, rolled_to}
use couchbase_health_observe.Actuator.Crash.{Mortal, call_at, mortal, stopped, with_calls}

-- The outcome is that of a run whose calls do not end, and at least `n` calls are left.
abbrev Agrees : {W A : Type 0} → ℕ → A × Mortal W → A × W → Type 0
Agrees n (a, m) (b, w) = (a ≡ b) × (m.world ≡ w) × (n ≤ m.left)

call_at-made :
    {W A : Type 0} (refused : A) (f : W → A × W) (n : ℕ) (w : W)
    → 1 ≤ n
    → ((call_at refused f n w).0 ≡ (f w).0)
      × ((call_at refused f n w).1.world ≡ (f w).1)
      × (n ≤ suc (call_at refused f n w).1.left)
unfolding call_at
call_at-made refused f zero w h = ground arith
call_at-made refused f (suc n) w h = (refl, refl, omega arith)

module _ (K : Kube) (cfg : Config) where
  patch_one-Agrees :
      (n : ℕ) (ref : Ref) (led : PatchLedger) (m : Mortal K.World)
      → 2 + n ≤ m.left
      → Agrees n (patch_one (mortal K) cfg ref led m) (patch_one K cfg ref led m.world)
  unfolding patch_one patch_found repoint
  patch_one-Agrees n ref led m h =
      let (answer, w') = K.get_config_map ref m.world in
      let m' = ((mortal K).get_config_map ref m).1 in
      let get = call_at-made (failed stopped) (K.get_config_map ref) m.left m.world (omega arith) in
      elim (Answer-cases answer) [
        | inl (cm, e) ↦
            let upd =
              call_at-made (some stopped) (K.update_config_map ref (pointed cfg cm)) m'.left
                m'.world (omega arith) in
            elim (Option-cases (K.update_config_map ref (pointed cfg cm) w').0) [
              | inl done ↦ ground (arith, get, upd)
              | inr (x, refused) ↦ ground (arith, get, upd)
            ]
        | inr (x, e) ↦ ground (arith, get)
      ]

  patch_config_maps-Agrees :
      (n : ℕ) (refs : List Ref) (led : PatchLedger) (m : Mortal K.World)
      → 2 * length refs + n ≤ m.left
      → Agrees n
          (patch_config_maps (mortal K) cfg refs led m)
          (patch_config_maps K cfg refs led m.world)
  unfolding patch_config_maps
  patch_config_maps-Agrees n [] led m h = (refl, refl, omega arith)
  patch_config_maps-Agrees n (ref ∷ refs) led m h =
      let (led', m') = patch_one (mortal K) cfg ref led m in
      let round = patch_one-Agrees (2 * length refs + n) ref led m (omega arith) in
      ground (arith, round, patch_config_maps-Agrees n refs led' m' round.2)

  roll_one-Agrees :
      (n : ℕ) (led : PatchLedger) (stamp : Str) (ref : Ref) (acc : ℕ × List Error)
      (m : Mortal K.World)
      → 2 + n ≤ m.left
      → Agrees n
          (roll_one (mortal K) cfg led stamp ref acc m)
          (roll_one K cfg led stamp ref acc m.world)
  unfolding roll_one roll_found stamp_deployment
  roll_one-Agrees n led stamp ref (rolled, errs) m h =
      let (answer, w') = K.get_deployment ref m.world in
      let m' = ((mortal K).get_deployment ref m).1 in
      let get = call_at-made (failed stopped) (K.get_deployment ref) m.left m.world (omega arith) in
      elim (Answer-cases answer) [
        | inl (d, e) ↦
            let upd =
              call_at-made (some stopped) (K.update_deployment ref (rolled_to cfg stamp d)) m'.left
                m'.world (omega arith) in
            elim (Option-cases (K.update_deployment ref (rolled_to cfg stamp d) w').0) [
              | inl done ↦ ground (arith, get, upd)
              | inr (x, refused) ↦ ground (arith, get, upd)
            ]
        | inr (x, e) ↦ ground (arith, get)
      ]

  roll_deployments-Agrees :
      (n : ℕ) (led : PatchLedger) (stamp : Str) (refs : List Ref) (acc : ℕ × List Error)
      (m : Mortal K.World)
      → 2 * length refs + n ≤ m.left
      → Agrees n
          (roll_deployments (mortal K) cfg led stamp refs acc m)
          (roll_deployments K cfg led stamp refs acc m.world)
  unfolding roll_deployments
  roll_deployments-Agrees n led stamp [] acc m h = (refl, refl, omega arith)
  roll_deployments-Agrees n led stamp (ref ∷ refs) acc m h =
      let (acc', m') = roll_one (mortal K) cfg led stamp ref acc m in
      let round = roll_one-Agrees (2 * length refs + n) led stamp ref acc m (omega arith) in
      ground (arith, round, roll_deployments-Agrees n led stamp refs acc' m' round.2)

-- A switch makes at most two calls to the API for each target: of a process that makes that many
-- calls and `n` more, `n` are left after the switch, which has the result and leaves the world of
-- one that is not stopped.
pub switch-calls :
    (K : Kube) (cfg : Config) (stamp : Str) (n : ℕ) (w : K.World)
    → let calls = 2 * length cfg.config_maps + 2 * length cfg.deployments + n in
      let (result, m) = switch (mortal K) cfg stamp (with_calls calls w) in
      (result ≡ (switch K cfg stamp w).0) × (m.world ≡ (switch K cfg stamp w).1) × (n ≤ m.left)
unfolding switch
switch-calls K cfg stamp n w =
    let more = 2 * length cfg.deployments + n in
    let m = with_calls (2 * length cfg.config_maps + 2 * length cfg.deployments + n) w in
    let patches =
      patch_config_maps-Agrees K cfg more cfg.config_maps empty_ledger m (omega arith) in
    let (led, m1) = patch_config_maps (mortal K) cfg cfg.config_maps empty_ledger m in
    let rolls = roll_deployments-Agrees K cfg n led stamp cfg.deployments (0, []) m1 patches.2 in
    ground (arith, patches, rolls)
