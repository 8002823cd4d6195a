-- ===== src/Observer/Serving.antt =====
-- The HTTP endpoints that `main` serves (cmd/svchealthcheck/main.go): their paths, and what the probes
-- of the process answer. What the API server's version call answers is an argument.
pub mod Requests
use couchbase_health_observe.Prelude.{
  ℕ, Bool, true, false, not, ◌≡◌, ◌↔◌, ◌⊎◌, List, ◌++◌, Option, none, some, Str, bytes, str_eq,
  is_nil, arith, if◌then◌else◌,
}
use couchbase_health_observe.Prelude.Int.{ℤ}
use couchbase_health_observe.Probes.{Heartbeat, liveness, readiness, after_ticks}
use couchbase_health_observe.Observer.Actuators.{Actuators, any}

pub data Route : Type 0 where
  health_couchbase healthz readyz metrics not_found : Route

-- The patterns of the multiplexer, none of which ends in a slash.
unfoldable pub route_of : Str → Route
route_of path =
    if str_eq path (bytes "/health/couchbase")
    then health_couchbase
    else if str_eq path (bytes "/healthz")
    then healthz
    else if str_eq path (bytes "/readyz")
    then readyz
    else if str_eq path (bytes "/metrics")
    then metrics
    else not_found

-- The check that `Readiness` is handed.
unfoldable pub check_ready : Bool → Actuators → Option Str → Option Str
check_ready first_eval acts version_error =
    if not first_eval
    then some (bytes "no health evaluation completed yet")
    else if acts.k8s
    then elim version_error [ none ↦ none | some e ↦ some (bytes "k8s API unreachable: " ++ e) ]
    else none

-- The heartbeat and the first evaluation, after ticks of the loop at the given times.
unfoldable pub heartbeat : Actuators → List ℤ → Option Heartbeat
unfolding any
heartbeat acts ticks = if any acts then some (after_ticks ticks) else none

unfoldable pub first_eval : Actuators → List ℤ → Bool
unfolding any
first_eval acts ticks = if any acts then not (is_nil ticks) else true

unfoldable pub serve_readyz : Actuators → List ℤ → Option Str → ℕ × Str
unfolding check_ready first_eval readiness
serve_readyz acts ticks version_error =
    readiness (check_ready (first_eval acts ticks) acts version_error)

unfoldable pub serve_healthz : Actuators → List ℤ → ℤ → ℤ → ℕ
unfolding heartbeat liveness
serve_healthz acts ticks max_age now = liveness (heartbeat acts ticks) max_age now

-- An observer is ready exactly if it only observes or its loop has evaluated once, and with the
-- Kubernetes actuator the API answers; one that only observes is alive at any time, and ready.
serve_readyz-ready :
    (acts : Actuators) (ticks : List ℤ) (version_error : Option Str) (max_age now : ℤ)
    → ((serve_readyz acts ticks version_error).0 ≡ 200 ↔ (
        ((any acts ≡ false) ⊎ (is_nil ticks ≡ false))
        × ((acts.k8s ≡ false) ⊎ (version_error ≡ none))))
      × ((any acts ≡ false)
          → (serve_healthz acts ticks max_age now ≡ 200)
            × ((serve_readyz acts ticks version_error).0 ≡ 200))
unfolding serve_readyz serve_healthz check_ready
serve_readyz-ready acts ticks version_error max_age now = (ground arith, λ observing. ground arith)
