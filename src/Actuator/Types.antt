-- ===== src/Actuator/Types.antt =====
-- The configuration, the targets and the errors (pkg/actuator/actuator.go, refs.go, k8s.go).
use couchbase_health_observe.Prelude.{
  Bool, true, false, ◌&&◌, ◌||◌, ◌≡◌, ◌↔◌, List, [], ◌∷◌, ◌++◌, Str, bytes, str_eq, str_eq_iff,
  arith,
}

pub record Ref : Type 0 where
  pub namespace : Str
  pub name : Str

unfoldable pub string : Ref → Str
string r = r.namespace ++ (b'/' ∷ r.name)

-- `==` on refs, as a map key has it.
unfoldable pub ref_eq : Ref → Ref → Bool
ref_eq r s = str_eq r.namespace s.namespace && str_eq r.name s.name

pub ref_eq_iff : (r s : Ref) → (ref_eq r s ≡ true) ↔ (r ≡ s)
unfolding ref_eq
ref_eq_iff r s = ground (arith, str_eq_iff r.namespace s.namespace, str_eq_iff r.name s.name)

unfoldable pub has_ref : List Ref → Ref → Bool
has_ref [] r = false
has_ref (s ∷ refs) r = ref_eq s r || has_ref refs r

pub record Config : Type 0 where
  pub config_maps : List Ref
  pub config_key : Str
  pub deployments : List Ref
  pub secondary : Str
  pub dry_run : Bool

abbrev pub ann_switched_to : Str
ann_switched_to = bytes "observer/switched-to"

abbrev pub ann_restarted_at : Str
ann_restarted_at = bytes "observer/restartedAt"

-- The errors of the package, by their format and its arguments; an API error is its text.
pub data Error : Type 0 where
  no_config_map : Error
  get_config_map_failed : Ref → Str → Error
  update_config_map_failed : Ref → Str → Error
  get_deployment_failed : Ref → Str → Error
  roll_deployment_failed : Ref → Str → Error
  invalid_target : Str → Str → Error
  no_target : Str → Error
