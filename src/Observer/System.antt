-- ===== src/Observer/System.antt =====
-- The poll loop of cmd/svchealthcheck/main.go with its two actuation paths in place: the Kubernetes
-- actuator (pkg/actuator/k8s.go) over the cluster, and the notifier (pkg/notify/http.go).
pub mod Ticks
pub mod Delivered
pub mod Recovery
pub mod Notified
pub mod Frozen
use couchbase_health_observe.Prelude.{
  Bool, true, false, ◌&&◌, List, [], ◌∷◌, Option, none, some, Str, is_nil, is_some, if◌then◌else◌,
}
use couchbase_health_observe.Prelude.Int.{ℤ}
use couchbase_health_observe.Svchealth.Types.{Probe}
use couchbase_health_observe.Actuator.Types.{Config, Error}
use couchbase_health_observe.Actuator.Kube.{Kube}
use couchbase_health_observe.Actuator.Switch.{switch}
use couchbase_health_observe.Webhook.{Http, World, notify}
use couchbase_health_observe.Observer.Switching.{Event, SwitchAnswer, errored, answered, Counters}
use couchbase_health_observe.Observer.Loop.State.{LoopConfig, TickInput, LoopState}
use couchbase_health_observe.Observer.Loop.{start, watch, tick_report, switch_event, attempts, tick}

-- What startup hands to the two paths, beside what the loop reads itself.
pub record SystemConfig : Type 0 where
  pub loop : LoopConfig
  pub config_key : Str
  pub http : Http

-- What comes from outside of the program during a tick, but for the cluster: the probes, the clock,
-- and what the webhook's endpoint answers.
pub record Surroundings : Type 0 where
  pub primary_probes : List Probe
  pub secondary_probes : List Probe
  pub checked_at : Str
  pub secondary_checked_at : Str
  pub observed_at : ℤ
  pub now : ℤ
  pub stamp : Str
  pub webhook : World

-- The configuration of the actuator that `main` makes.
abbrev pub actuator_config : SystemConfig → Config
actuator_config c = record {
  config_maps = c.loop.config_maps;
  config_key = c.config_key;
  deployments = c.loop.deployments;
  secondary = c.loop.secondary;
  dry_run = c.loop.dry_run;
}

abbrev pub answer_of : Bool × List Error → SwitchAnswer
answer_of (switched, errs) = if is_nil errs then answered switched else errored

-- The input of a tick, for given answers of the two paths.
abbrev pub with_answers : Surroundings → SwitchAnswer → Bool → TickInput
with_answers x act notify_failed = record {
  primary_probes = x.primary_probes;
  secondary_probes = x.secondary_probes;
  checked_at = x.checked_at;
  secondary_checked_at = x.secondary_checked_at;
  observed_at = x.observed_at;
  now = x.now;
  act = act;
  notify_failed = notify_failed;
}

-- The answers are read only once the two paths were called.
abbrev pub unanswered : Surroundings → TickInput
unanswered x = with_answers x errored true

-- The event that a tick would hand to the notifier.
unfoldable pub event_of : SystemConfig → Surroundings → LoopState → Event
unfolding watch tick_report
event_of c x s =
    let i = unanswered x in
    let (watched, res) = watch c.loop s i in switch_event c.loop watched i (tick_report c.loop s i)

module _ (K : Kube) (c : SystemConfig) where
  -- The input of a tick in a state: the actuator's answer over the cluster, and the outcome of the
  -- delivery of the event.
  unfoldable pub input_of : Surroundings → LoopState → K.World → TickInput
  unfolding event_of
  input_of x s w =
      let (err, delivery) = notify c.http x.webhook (event_of c x s) in
      with_answers x (answer_of (switch K (actuator_config c) x.stamp w).0) (is_some err)

  -- The actuator is called where the tick attempts the switch and the actuator is on.
  unfoldable pub calls_actuator : Surroundings → LoopState → Bool
  unfolding watch attempts
  calls_actuator x s =
      let (watched, res) = watch c.loop s (unanswered x) in
      attempts c.loop (unanswered x) res && c.loop.actuators.k8s

  unfoldable pub system_tick : Surroundings → LoopState × K.World → LoopState × K.World
  unfolding tick input_of calls_actuator
  system_tick x (s, w) = (
    tick c.loop s (input_of x s w),
    if calls_actuator x s then (switch K (actuator_config c) x.stamp w).1 else w,
  )

  -- The system after the ticks of a list, the oldest first, from the loop's start on a cluster.
  unfoldable pub system_run : Counters → K.World → List Surroundings → LoopState × K.World
  unfolding start
  system_run counters w [] = (start c.loop counters, w)
  system_run counters w (x ∷ older) = system_tick x (system_run counters w older)
