-- ===== src/Lambda/Delivery.antt =====
-- One delivery of an alarm, and a second of the same (pkg/switchhandler/switchhandler.go).
use couchbase_health_observe.Prelude.{
  Bool, true, false, not, ◌||◌, ◌≡◌, ◌&&◌, List, [], Option, none, some, Str, is_nil, is_none,
  arith, if◌then◌else◌,
}
use couchbase_health_observe.Actuator.Types.{Config, Error, has_ref, Ref}
use couchbase_health_observe.Actuator.Kube.{Kube, IsLawful, SameServer}
use couchbase_health_observe.Actuator.Switch.{switch}
use couchbase_health_observe.Actuator.Switch.Reads.{on_secondary, stamped}
use couchbase_health_observe.Actuator.Switch.Outcome.{switch-converges, switch-twice}
use couchbase_health_observe.Lambda.{Json, actionable, parse, HandleError, handle, switch_failed}

-- The event asks for a switch.
abbrev pub raises : Json → Str → Bool
raises J raw = is_none (parse J raw).1 && actionable (parse J raw).0

handle-switches :
    {World : Type 0} (J : Json) (act : World → (Bool × List Error) × World) (raw : Str) (w : World)
    → raises J raw ≡ true
    → ((handle J act raw w).1 ≡ (act w).1)
      × ((handle J act raw w).0
          ≡ (if is_nil (act w).0.1 then none else some (switch_failed (act w).0.1)))
unfolding handle
handle-switches J act raw w h = ground arith

-- An event that holds no record, or whose alarm is in another state than ALARM, changes nothing and
-- is no error; one that cannot be parsed changes nothing and is an error. Any other is handed to the
-- actuator once, and is an error exactly if the actuator tells one.
handle-raises :
    {World : Type 0} (J : Json) (act : World → (Bool × List Error) × World) (raw : Str) (w : World)
    → let (err, w') = handle J act raw w in
      (w' ≡ (if raises J raw then (act w).1 else w))
      × (is_none err
          ≡ (is_none (parse J raw).1 && (not (actionable (parse J raw).0) || is_nil (act w).0.1)))
unfolding handle
handle-raises J act raw w = ground arith

module _ (K : Kube) (L : IsLawful K) (cfg : Config) (J : Json) (raw : Str) where
  -- The handler over the Kubernetes actuator, at a time of its clock.
  abbrev pub deliver : Str → K.World → Option HandleError × K.World
  deliver stamp w = handle J (switch K cfg stamp) raw w

  -- Over an API that keeps its laws, a delivery of an alarm that returns nil, outside a dry run,
  -- has moved every target ConfigMap to the secondary and stamped every target Deployment; a second
  -- delivery of the same alarm changes nothing on the server.
  pub handle-duplicate :
      (stamp again : Str) (w : K.World)
      → cfg.dry_run ≡ false
      → raises J raw ≡ true
      → (deliver stamp w).0 ≡ none
      → let w' = (deliver stamp w).1 in
        ((r : Ref) → has_ref cfg.config_maps r ≡ true → on_secondary K cfg w' r ≡ true)
        × ((r : Ref) → has_ref cfg.deployments r ≡ true → stamped K cfg w' r ≡ true)
        × SameServer K (deliver again w').1 w'
  handle-duplicate stamp again w real alarm delivered =
      let (moved, told) = handle-switches J (switch K cfg stamp) raw w alarm in
      let quiet : (switch K cfg stamp w).0.1 ≡ [] = ground (arith, told, delivered) in
      let converged = switch-converges K L cfg stamp w real quiet in
      let twice = switch-twice K L cfg stamp again w real quiet in
      let again_moved =
        (handle-switches J (switch K cfg again) raw (switch K cfg stamp w).1 alarm).0 in
      rw moved (converged.0, converged.1, rw again_moved twice.1)
