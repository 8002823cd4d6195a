-- ===== src/Actuator/Crash.antt =====
-- A process that stops in the middle of a switch (pkg/actuator/k8s.go): of the calls to the API the
-- first few are made, and none after them. `left` counts those that are still to come; the world
-- that is left after the switch is the one that the process leaves behind.
pub mod Laws
pub mod Retry
pub mod Calls
use couchbase_health_observe.Prelude.{ℕ, zero, suc, some, Str, bytes}
use couchbase_health_observe.Actuator.Kube.{Answer, failed, Kube}

pub record Mortal (W : Type 0) : Type 0 where
  pub left : ℕ
  pub world : W

-- A call where `n` are left: with none left it is refused, and changes nothing.
unfoldable pub call_at : {W A : Type 0} → A → (W → A × W) → ℕ → W → A × Mortal W
call_at refused f zero w = (refused, record { left = 0; world = w })
call_at refused f (suc n) w = let (a, w') = f w in (a, record { left = n; world = w' })

abbrev pub call : {W A : Type 0} → A → (W → A × W) → Mortal W → A × Mortal W
call refused f m = call_at refused f m.left m.world

abbrev pub stopped : Str
stopped = bytes "stopped"

abbrev pub mortal : Kube → Kube
mortal K = record {
  World = Mortal K.World;
  config_map = λ m r. K.config_map m.world r;
  deployment = λ m r. K.deployment m.world r;
  get_config_map = λ r m. call (failed stopped) (K.get_config_map r) m;
  update_config_map = λ r cm m. call (some stopped) (K.update_config_map r cm) m;
  get_deployment = λ r m. call (failed stopped) (K.get_deployment r) m;
  update_deployment = λ r d m. call (some stopped) (K.update_deployment r d) m;
}

-- A process that makes `n` calls more.
abbrev pub with_calls : {W : Type 0} → ℕ → W → Mortal W
with_calls n w = record { left = n; world = w }
