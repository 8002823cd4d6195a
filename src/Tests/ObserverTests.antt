-- ===== src/Tests/ObserverTests.antt =====
-- One switch, the reconcile at startup, and the list of actuators (cmd/svchealthcheck).
use couchbase_health_observe.Prelude.{
  true, false, ◌||◌, ◌≡◌, ◌≢◌, ◌⊎◌, [], ◌∷◌, none, some, bytes, is_nil,
}
use couchbase_health_observe.Actuator.Types.{Ref, Config, has_ref}
use couchbase_health_observe.Actuator.Kube.{SameServer}
use couchbase_health_observe.Actuator.Kube.Memory.{Cluster, memory, memory-IsLawful}
use couchbase_health_observe.Actuator.Switch.Reads.{on_secondary}
use couchbase_health_observe.Observer.Switching.{Counters}
use couchbase_health_observe.Observer.Reconcile.{reconcile_already_switched, reconcile_sound}

abbrev counters : Counters
counters = record {
  failover_errors = 0;
  failover_total = 0;
  webhook_ok = 0;
  webhook_error = 0;
  last_actuation_success = none;
  webhook_last_success = none;
}

abbrev target : Ref
target = record { namespace = bytes "a"; name = bytes "c" }

abbrev config : Config
config = record {
  config_maps = target ∷ [];
  config_key = bytes "k";
  deployments = [];
  secondary = bytes "S";
  dry_run = false;
}

-- The target already holds the secondary.
abbrev cluster : Cluster
cluster = record {
  config_maps = (target, record { content = some ((bytes "k", bytes "S") ∷ []) }) ∷ [];
  deployments = [];
  unreadable = [];
  read_only = [];
}

reconcile_sound_example :
    let ((switched, stale), w') = reconcile_already_switched memory config cluster in
    SameServer memory w' cluster
    × (switched ≡ true
        → (bytes "S" ≢ [])
          × ((target ∷ []) ≢ [])
          × ((r : Ref)
              → has_ref (target ∷ []) r ≡ true
              → on_secondary memory config cluster r ≡ true))
    × ((is_nil (bytes "S") || is_nil (target ∷ [])) ≡ false
        → (r : Ref) → has_ref (target ∷ []) r ≡ true
        → (on_secondary memory config cluster r ≡ true) ⊎ (has_ref stale r ≡ true))
reconcile_sound_example = reconcile_sound memory memory-IsLawful config cluster
