-- ===== src/Actuator/Switch/Reads.antt =====
-- What a reader sees of the objects: whether a ConfigMap holds the secondary, and whether a
-- Deployment carries its stamp (pkg/actuator/k8s.go).
use couchbase_health_observe.Prelude.{
  Bool, true, false, ◌≡◌, refl, Option, none, some, Str, str_eq, str_eq_refl, if◌then◌else◌, arith,
}
use couchbase_health_observe.Prelude.Dict.{Dict, lookup, insert, lookup-insert}
use couchbase_health_observe.Actuator.Types.{Ref, Config, ann_switched_to, ann_restarted_at}
use couchbase_health_observe.Actuator.Kube.{ConfigMap, Deployment, get, put, Kube}

pub get-put :
    (m : Option (Dict Str)) (k j v : Str) → get (put m k v) j ≡ (if str_eq k j then v else get m j)
unfolding get put
get-put none k j v = unfold lookup insert in ground arith
get-put (some m) k j v = ground (arith, lookup-insert k j v m)

module _ (K : Kube) (cfg : Config) where
  abbrev pub holds : Option ConfigMap → Bool
  holds none = false
  holds (some cm) = str_eq (get cm.content cfg.config_key) cfg.secondary

  -- The ConfigMap is there, and its connection string is the secondary's.
  abbrev pub on_secondary : K.World → Ref → Bool
  on_secondary w r = holds (K.config_map w r)

  abbrev pub carries : Option Deployment → Bool
  carries none = false
  carries (some d) = str_eq (get d.annotations ann_switched_to) cfg.secondary

  -- The Deployment is there, and its pods were told of the secondary.
  abbrev pub stamped : K.World → Ref → Bool
  stamped w r = carries (K.deployment w r)

-- The objects that the two writes make.
abbrev pub pointed : Config → ConfigMap → ConfigMap
pointed cfg cm = record { content = put cm.content cfg.config_key cfg.secondary }

abbrev pub rolled_to : Config → Str → Deployment → Deployment
rolled_to cfg stamp dep = record {
  annotations = put (put dep.annotations ann_switched_to cfg.secondary) ann_restarted_at stamp;
}

pub pointed-holds :
    (cfg : Config) (cm : ConfigMap)
    → str_eq (get (pointed cfg cm).content cfg.config_key) cfg.secondary ≡ true
pointed-holds cfg cm = ground (
  arith,
  get-put cm.content cfg.config_key cfg.config_key cfg.secondary,
  str_eq_refl cfg.config_key,
  str_eq_refl cfg.secondary,
)

other_annotation : str_eq ann_restarted_at ann_switched_to ≡ false
unfolding str_eq
other_annotation = refl

pub rolled_to-carries :
    (cfg : Config) (stamp : Str) (dep : Deployment)
    → str_eq (get (rolled_to cfg stamp dep).annotations ann_switched_to) cfg.secondary ≡ true
rolled_to-carries cfg stamp dep =
    let inner = put dep.annotations ann_switched_to cfg.secondary in
    rw (get-put inner ann_restarted_at ann_switched_to stamp, other_annotation)
      (rw (get-put dep.annotations ann_switched_to ann_switched_to cfg.secondary)
        (rw (str_eq_refl ann_switched_to) (str_eq_refl cfg.secondary)))
