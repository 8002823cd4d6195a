-- ===== src/Actuator/Trace.antt =====
-- The calls that a switch makes (pkg/actuator/k8s.go), with what they are answered, over an API of
-- which nothing is assumed: others may write to the same objects between any two calls.
pub mod View
pub mod Patches
pub mod Order
use couchbase_health_observe.Prelude.{
  Bool, true, false, ◌&&◌, ◌≡◌, List, [], ◌∷◌, Option, none, some, Str, str_eq, any_of,
}
use couchbase_health_observe.Actuator.Types.{Ref, Config, ref_eq, has_ref}
use couchbase_health_observe.Actuator.Kube.{ConfigMap, Deployment, get, Answer, ok, failed, Kube}
use couchbase_health_observe.Actuator.Switch.Reads.{pointed, rolled_to}

pub data Call : Type 0 where
  got_config_map : Ref → Answer ConfigMap → Call
  updated_config_map : Ref → ConfigMap → Option Str → Call
  got_deployment : Ref → Answer Deployment → Call
  updated_deployment : Ref → Deployment → Option Str → Call

-- The calls so far, the newest first.
pub record Traced (W : Type 0) : Type 0 where
  pub world : W
  pub calls : List Call

abbrev pub noted : {W A : Type 0} → (A → Call) → (W → A × W) → Traced W → A × Traced W
noted note f t = let (a, w') = f t.world in (a, record { world = w'; calls = note a ∷ t.calls })

abbrev pub traced : Kube → Kube
traced K = record {
  World = Traced K.World;
  config_map = λ t r. K.config_map t.world r;
  deployment = λ t r. K.deployment t.world r;
  get_config_map = λ r t. noted (got_config_map r) (K.get_config_map r) t;
  update_config_map = λ r cm t. noted (updated_config_map r cm) (K.update_config_map r cm) t;
  get_deployment = λ r t. noted (got_deployment r) (K.get_deployment r) t;
  update_deployment = λ r d t. noted (updated_deployment r d) (K.update_deployment r d) t;
}

abbrev pub untold : {W : Type 0} → W → Traced W
untold w = record { world = w; calls = [] }

module _ (cfg : Config) where
  -- The call showed the ConfigMap on the secondary, or put it there.
  abbrev pub reaches : Ref → Call → Bool
  reaches c (got_config_map r (ok cm)) =
      ref_eq r c && str_eq (get cm.content cfg.config_key) cfg.secondary
  reaches c (updated_config_map r cm none) =
      ref_eq r c && str_eq (get cm.content cfg.config_key) cfg.secondary
  reaches c _ = false

  abbrev pub reached : List Call → Ref → Bool
  reached calls c = any_of (reaches c) calls

  -- What may be called after given calls. A write follows the read of its object at once, and
  -- changes what was read in nothing but its own keys; a ConfigMap is written only where it was read
  -- off the secondary, and a Deployment only after every target ConfigMap of its namespace was
  -- shown, or put, on the secondary.
  abbrev pub Allowed : Str → Call → List Call → Type 0
  Allowed stamp (updated_config_map c cm err) older =
      (cfg.dry_run ≡ false)
      × ((old : ConfigMap) × (earlier : List Call) × (older ≡ got_config_map c (ok old) ∷ earlier)
          × (str_eq (get old.content cfg.config_key) cfg.secondary ≡ false)
          × (cm ≡ pointed cfg old))
  Allowed stamp (updated_deployment d dep err) older =
      (cfg.dry_run ≡ false)
      × ((old : Deployment) × (earlier : List Call) × (older ≡ got_deployment d (ok old) ∷ earlier)
          × (dep ≡ rolled_to cfg stamp old))
      × ((c : Ref)
          → has_ref cfg.config_maps c ≡ true
          → c.namespace ≡ d.namespace
          → reached older c ≡ true)
  Allowed stamp (got_config_map c a) older = has_ref cfg.config_maps c ≡ true
  Allowed stamp (got_deployment d a) older =
      (has_ref cfg.deployments d ≡ true) × (cfg.dry_run ≡ false)

  pub data IsProper (stamp : Str) : List Call → Type 0 where
    idle : IsProper stamp []
    after :
        {call : Call} {older : List Call}
        → IsProper stamp older
        → Allowed stamp call older
        → IsProper stamp (call ∷ older)
