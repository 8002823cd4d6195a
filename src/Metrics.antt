-- ===== src/Metrics.antt =====
-- The collectors of the observer and their registration (pkg/metrics/metrics.go). The registry is the
-- Prometheus library's; the values of the collectors are in the state of the poll loop.
use couchbase_health_observe.Prelude.{
  str_eq, true, false, ◌≡◌, refl, List, [], ◌∷◌, Option, none, some, Str, bytes, not, Bool, ◌&&◌,
  arith,
}
use couchbase_health_observe.Prelude.Dict.{contains}

pub data Kind : Type 0 where
  gauge_kind gauge_vec_kind counter_kind counter_vec_kind : Kind

pub record Collector : Type 0 where
  pub kind : Kind
  pub name : Str
  pub labels : List Str

-- The helpers; the help text is left out.
unfoldable pub gauge : Str → Collector
gauge name = record { kind = gauge_kind; name = name; labels = [] }

unfoldable pub gauge_vec : Str → List Str → Collector
gauge_vec name labels = record { kind = gauge_vec_kind; name = name; labels = labels }

unfoldable pub counter : Str → Collector
counter name = record { kind = counter_kind; name = name; labels = [] }

unfoldable pub counter_vec : Str → List Str → Collector
counter_vec name labels = record { kind = counter_vec_kind; name = name; labels = labels }

-- The collectors, in the order in which they are made.
unfoldable pub collectors : List Collector
unfolding gauge gauge_vec counter counter_vec
collectors =
    gauge (bytes "observer_loop_last_tick_timestamp_seconds")
    ∷ gauge_vec (bytes "observer_couchbase_up") (bytes "region" ∷ [])
    ∷ gauge_vec (bytes "observer_service_up") (bytes "service" ∷ [])
    ∷ gauge (bytes "observer_sustained_down_seconds")
    ∷ gauge_vec (bytes "observer_active_region") (bytes "region" ∷ [])
    ∷ counter (bytes "observer_failover_total")
    ∷ counter (bytes "observer_failover_errors_total")
    ∷ gauge (bytes "observer_last_actuation_success_timestamp_seconds")
    ∷ gauge (bytes "observer_secondary_up")
    ∷ counter_vec (bytes "observer_webhook_total") (bytes "result" ∷ [])
    ∷ gauge (bytes "observer_webhook_last_success_timestamp_seconds")
    ∷ []

-- The library's registry: `MustRegister` panics where `register` gives none.
pub record Registry : Type 1 where
  pub State : Type 0
  pub empty : State
  pub register : Collector → State → Option State
  pub names : State → List Str

-- A collector whose name is new is registered, under its name.
pub record IsRegistry (R : Registry) : Type 0 where
  pub starts_empty : R.names R.empty ≡ []
  pub registers_new :
      (c : Collector) (s : R.State)
      → contains (R.names s) c.name ≡ false
      → (s' : R.State) × (R.register c s ≡ some s') × (R.names s' ≡ c.name ∷ R.names s)

module _ (R : Registry) where
  -- What the initialisation of the package's variables leaves of the registry, or none for a panic.
  unfoldable pub register_all : List Collector → R.State → Option R.State
  register_all [] s = some s
  register_all (c ∷ cs) s = elim (R.register c s) [ none ↦ none | some s' ↦ register_all cs s' ]

  abbrev new_names : List Collector → List Str → Bool
  new_names [] taken = true
  new_names (c ∷ cs) taken = not (contains taken c.name) && new_names cs (c.name ∷ taken)

  register_all-passes :
      (L : IsRegistry R) (cs : List Collector) (s : R.State)
      → new_names cs (R.names s) ≡ true
      → (s' : R.State) × (register_all cs s ≡ some s')
  unfolding register_all
  register_all-passes L [] s h = (s, refl)
  register_all-passes L (c ∷ cs) s h =
      let (s', e, names) = L.registers_new c s (ground arith) in
      let (last, rest) = register_all-passes L cs s' (rw names (ground arith)) in
      (last, rw (e, register_all) rest)

  -- No two collectors have one name: over a registry that takes new names, the initialisation of the
  -- package does not panic.
  pub collectors-registered :
      IsRegistry R → (s : R.State) × (register_all collectors R.empty ≡ some s)
  collectors-registered L = register_all-passes L collectors R.empty (rw L.starts_empty distinct)
    where
      distinct : new_names collectors [] ≡ true
      distinct = unfold collectors contains str_eq in refl
