-- ===== src/Actuator/Shared.antt =====
-- Several switches on one cluster at once (pkg/actuator/k8s.go): the observer, its replicas and the
-- Lambda (cmd/switch-lambda/main.go) call the API in any order. A step is one call of one of them.
pub mod Safe
use couchbase_health_observe.Prelude.{
  ℕ, Bool, true, false, ◌≡◌, ◌⊎◌, List, [], ◌∷◌, ◌++◌, Option, none, some, Str, str_eq, is_some,
  ◌==◌, if◌then◌else◌,
}
use couchbase_health_observe.Actuator.Types.{Ref, Config, ref_eq}
use couchbase_health_observe.Actuator.Kube.{ConfigMap, Deployment, get, Answer, ok, failed, Kube}
use couchbase_health_observe.Actuator.Switch.{switch}
use couchbase_health_observe.Actuator.Trace.{
  Call, got_config_map, updated_config_map, got_deployment, updated_deployment, traced, untold,
}

-- What each switch has of its own; the key and the secondary are those of all of them.
pub record Writer : Type 0 where
  pub config_maps : List Ref
  pub deployments : List Ref
  pub dry_run : Bool
  pub stamp : Str

pub record Team : Type 0 where
  pub config_key : Str
  pub secondary : Str
  pub writer : ℕ → Writer

abbrev pub config_of : Team → ℕ → Config
config_of t i = record {
  config_maps = (t.writer i).config_maps;
  config_key = t.config_key;
  deployments = (t.writer i).deployments;
  secondary = t.secondary;
  dry_run = (t.writer i).dry_run;
}

-- The objects, and the calls that each switch made, the newest first.
pub record Shared : Type 0 where
  pub config_map : Ref → Option ConfigMap
  pub deployment : Ref → Option Deployment
  pub calls : ℕ → List Call

abbrev pub noting : ℕ → Call → Shared → Shared
noting i call s = record s { calls = λ j. if i == j then call ∷ s.calls j else s.calls j }

-- The calls are those that the switch makes up to some point, for the answers that it got.
abbrev pub Made : Team → ℕ → List Call → Type 1
Made t i calls =
    (K : Kube) × (w : K.World) × (later : List Call) × ((switch (traced K) (config_of t i)
        (t.writer i).stamp (untold w)).1.calls
      ≡ later ++ calls)

-- A get that answers shows what is there.
abbrev pub Shows : {V : Type 0} → Answer V → Option V → Type 0
Shows (ok v) o = o ≡ some v
Shows (failed e) o = Unit

-- An update writes its object, or fails and leaves it; no other object is touched.
abbrev pub Writes :
    {V : Type 0} → Ref → V → Option Str → (Ref → Option V) → (Ref → Option V) → Type 0
Writes r v err old now =
    ((now r ≡ some v) ⊎ ((is_some err ≡ true) × (now r ≡ old r)))
    × ((s : Ref) → ref_eq r s ≡ false → now s ≡ old s)

pub data Step (t : Team) (s : Shared) : Shared → Type 1 where
  reads_config_map :
      (i : ℕ) (r : Ref) (a : Answer ConfigMap)
      → Made t i (got_config_map r a ∷ s.calls i)
      → Shows a (s.config_map r)
      → Step t s (noting i (got_config_map r a) s)
  writes_config_map :
      (i : ℕ) (r : Ref) (cm : ConfigMap) (err : Option Str) (now : Ref → Option ConfigMap)
      → Made t i (updated_config_map r cm err ∷ s.calls i)
      → Writes r cm err s.config_map now
      → Step t s (record (noting i (updated_config_map r cm err) s) { config_map = now })
  reads_deployment :
      (i : ℕ) (r : Ref) (a : Answer Deployment)
      → Made t i (got_deployment r a ∷ s.calls i)
      → Shows a (s.deployment r)
      → Step t s (noting i (got_deployment r a) s)
  writes_deployment :
      (i : ℕ) (r : Ref) (d : Deployment) (err : Option Str) (now : Ref → Option Deployment)
      → Made t i (updated_deployment r d err ∷ s.calls i)
      → Writes r d err s.deployment now
      → Step t s (record (noting i (updated_deployment r d err) s) { deployment = now })

-- What some calls of the switches lead to, from a cluster on which none was made.
pub data Reach (t : Team) (config_map : Ref → Option ConfigMap)
    (deployment : Ref → Option Deployment) : Shared → Type 1 where
  begun :
      Reach t config_map deployment
        (record { config_map = config_map; deployment = deployment; calls = λ i. [] })
  stepped :
      {s s' : Shared}
      → Reach t config_map deployment s
      → Step t s s'
      → Reach t config_map deployment s'

abbrev pub shows_secondary : Team → Option ConfigMap → Bool
shows_secondary t none = false
shows_secondary t (some cm) = str_eq (get cm.content t.config_key) t.secondary
