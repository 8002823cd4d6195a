-- ===== src/Actuator/Kube.antt =====
-- The Kubernetes API that the actuator calls (client-go, used in pkg/actuator/k8s.go), as an
-- interface: the calls, what the server holds, and what a call does to it.
pub mod Memory
use couchbase_health_observe.Prelude.{
  Bool, true, false, ◌≡◌, refl, ◌⊎◌, inl, inr, List, [], Option, none, some, Str, if◌then◌else◌,
}
use couchbase_health_observe.Prelude.Dict.{Dict, lookup, insert}
use couchbase_health_observe.Actuator.Types.{Ref, ref_eq}

-- What the source reads and writes of the two kinds of object: `Data` of a ConfigMap, and the pod
-- template's annotations of a Deployment. A nil map is `none`.
pub record ConfigMap : Type 0 where
  pub content : Option (Dict Str)

pub record Deployment : Type 0 where
  pub annotations : Option (Dict Str)

-- `m[k]` on a map that may be nil: the empty text where the key is missing.
unfoldable pub get : Option (Dict Str) → Str → Str
get none k = []
get (some m) k = elim (lookup k m) [ none ↦ [] | some v ↦ v ]

-- A write to a map that is made first where it is nil.
unfoldable pub put : Option (Dict Str) → Str → Str → Option (Dict Str)
put none k v = some (insert k v [])
put (some m) k v = some (insert k v m)

pub data Answer (A : Type 0) : Type 0 where
  ok : A → Answer A
  failed : Str → Answer A

pub Answer-cases :
    {A : Type 0} (a : Answer A) → ((x : A) × (a ≡ ok x)) ⊎ ((e : Str) × (a ≡ failed e))
Answer-cases (ok x) = inl (x, refl)
Answer-cases (failed e) = inr (e, refl)

pub record Kube : Type 1 where
  pub World : Type 0
  pub config_map : World → Ref → Option ConfigMap
  pub deployment : World → Ref → Option Deployment
  pub get_config_map : Ref → World → Answer ConfigMap × World
  pub update_config_map : Ref → ConfigMap → World → Option Str × World
  pub get_deployment : Ref → World → Answer Deployment × World
  pub update_deployment : Ref → Deployment → World → Option Str × World

-- The server holds the same objects.
abbrev pub SameServer : (K : Kube) → K.World → K.World → Type 0
SameServer K v w =
    ((r : Ref) → K.config_map v r ≡ K.config_map w r)
    × ((r : Ref) → K.deployment v r ≡ K.deployment w r)

-- A get reads what is there, if it answers; an update that answers has written its object. One
-- that fails, as by a lost answer, has written its object or left the old one. No call touches
-- another object, and nobody else writes in between.
pub record IsLawful (K : Kube) : Type 0 where
  pub get_config_map_keeps : (r : Ref) (w : K.World) → SameServer K (K.get_config_map r w).1 w
  pub get_config_map_ok :
      (r : Ref) (w : K.World) (cm : ConfigMap)
      → (K.get_config_map r w).0 ≡ ok cm
      → K.config_map w r ≡ some cm
  pub update_config_map_ok :
      (r : Ref) (cm : ConfigMap) (w : K.World)
      → (K.update_config_map r cm w).0 ≡ none
      → K.config_map (K.update_config_map r cm w).1 r ≡ some cm
  pub update_config_map_any :
      (r : Ref) (cm : ConfigMap) (w : K.World)
      → (K.config_map (K.update_config_map r cm w).1 r ≡ some cm)
        ⊎ (K.config_map (K.update_config_map r cm w).1 r ≡ K.config_map w r)
  pub update_config_map_other :
      (r : Ref) (cm : ConfigMap) (w : K.World) (s : Ref)
      → ref_eq r s ≡ false
      → K.config_map (K.update_config_map r cm w).1 s ≡ K.config_map w s
  pub update_config_map_deployment :
      (r : Ref) (cm : ConfigMap) (w : K.World) (s : Ref)
      → K.deployment (K.update_config_map r cm w).1 s ≡ K.deployment w s
  pub get_deployment_keeps : (r : Ref) (w : K.World) → SameServer K (K.get_deployment r w).1 w
  pub get_deployment_ok :
      (r : Ref) (w : K.World) (d : Deployment)
      → (K.get_deployment r w).0 ≡ ok d
      → K.deployment w r ≡ some d
  pub update_deployment_ok :
      (r : Ref) (d : Deployment) (w : K.World)
      → (K.update_deployment r d w).0 ≡ none
      → K.deployment (K.update_deployment r d w).1 r ≡ some d
  pub update_deployment_any :
      (r : Ref) (d : Deployment) (w : K.World)
      → (K.deployment (K.update_deployment r d w).1 r ≡ some d)
        ⊎ (K.deployment (K.update_deployment r d w).1 r ≡ K.deployment w r)
  pub update_deployment_other :
      (r : Ref) (d : Deployment) (w : K.World) (s : Ref)
      → ref_eq r s ≡ false
      → K.deployment (K.update_deployment r d w).1 s ≡ K.deployment w s
  pub update_deployment_config_map :
      (r : Ref) (d : Deployment) (w : K.World) (s : Ref)
      → K.config_map (K.update_deployment r d w).1 s ≡ K.config_map w s
