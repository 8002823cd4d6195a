-- ===== src/Tests/MetricsTests.antt =====
-- A registry that keeps the names (pkg/metrics).
use couchbase_health_observe.Prelude.{
  ◌≡◌, refl, [], ◌∷◌, none, some, Str, List, bytes, if◌then◌else◌, str_eq, arith,
}
use couchbase_health_observe.Prelude.Dict.{contains}
use couchbase_health_observe.Metrics.{
  Registry, IsRegistry, collectors, register_all, gauge, collectors-registered,
}

abbrev by_name : Registry
by_name = record {
  State = List Str;
  empty = [];
  register = λ c s. if contains s c.name then none else some (c.name ∷ s);
  names = λ s. s;
}

by_name-IsRegistry : IsRegistry by_name
by_name-IsRegistry = record {
  starts_empty = refl;
  registers_new = λ c s new. (c.name ∷ s, ground (arith, new), refl);
}

passes : (s : List Str) × (register_all by_name collectors [] ≡ some s)
passes = collectors-registered by_name by_name-IsRegistry

-- A name that is taken ends the initialisation.
panics : register_all by_name (gauge (bytes "g") ∷ gauge (bytes "g") ∷ []) [] ≡ none
unfolding register_all gauge contains str_eq
panics = refl
