-- ===== src/Actuator/Journal/Reads.antt =====
-- What is read off the log lines and the errors of a switch (pkg/actuator/k8s.go).
use couchbase_health_observe.Prelude.{
  Bool, false, ◌||◌, ◌≡◌, refl, List, [], ◌∷◌, ◌++◌, Option, none, some, Str, arith, if◌then◌else◌,
  Option-cases, any_of, inl, inr,
}
use couchbase_health_observe.Actuator.Types.{
  Ref, ref_eq, Error, update_config_map_failed, roll_deployment_failed,
}
use couchbase_health_observe.Actuator.Journal.{ActuatorLine, configmap_patch, deployment_roll}

abbrev pub first_of {ℓ} : {A : Type ℓ} → Option A → Option A → Option A
first_of none y = y
first_of (some x) y = some x

-- The old connection of a ConfigMap, where the line tells of its patch.
abbrev pub from_of : ActuatorLine → Ref → Option Str
from_of (configmap_patch ref key from to) c = if ref_eq ref c then some from else none
from_of _ c = none

unfoldable pub logged_from : List ActuatorLine → Ref → Option Str
logged_from [] c = none
logged_from (l ∷ ls) c = first_of (from_of l c) (logged_from ls c)

abbrev pub tells_roll : Ref → ActuatorLine → Bool
tells_roll d (deployment_roll ref) = ref_eq ref d
tells_roll d _ = false

abbrev pub logged_roll : List ActuatorLine → Ref → Bool
logged_roll ls d = any_of (tells_roll d) ls

-- An error names the ConfigMap, or the Deployment, as one whose update was refused.
abbrev pub refuses_patch : Ref → Error → Bool
refuses_patch c (update_config_map_failed ref e) = ref_eq ref c
refuses_patch c _ = false

abbrev pub refuses_roll : Ref → Error → Bool
refuses_roll d (roll_deployment_failed ref e) = ref_eq ref d
refuses_roll d _ = false

abbrev pub patch_refused : List Error → Ref → Bool
patch_refused es c = any_of (refuses_patch c) es

abbrev pub roll_refused : List Error → Ref → Bool
roll_refused es d = any_of (refuses_roll d) es

pub logged_from-append :
    (xs ys : List ActuatorLine) (c : Ref)
    → logged_from (xs ++ ys) c ≡ first_of (logged_from xs c) (logged_from ys c)
unfolding logged_from
logged_from-append [] ys c = refl
logged_from-append (x ∷ xs) ys c = elim (Option-cases (from_of x c)) [
  | inl quiet ↦ ground (arith, logged_from-append xs ys c)
  | inr (old, told) ↦ ground arith
]

pub any_of-append {ℓ} :
    {A : Type ℓ} (p : A → Bool) (xs ys : List A)
    → any_of p (xs ++ ys) ≡ (any_of p xs || any_of p ys)
any_of-append p [] ys = refl
any_of-append p (x ∷ xs) ys = ground (arith, any_of-append p xs ys)
