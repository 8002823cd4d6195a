-- ===== src/Observer/Loop/State.antt =====
-- The state of the poll loop, its configuration and its input (cmd/svchealthcheck/main.go).
use couchbase_health_observe.Prelude.{
  ℕ, Bool, true, false, List, [], ◌∷◌, Option, none, some, Str, bytes, str_eq, if◌then◌else◌,
}
use couchbase_health_observe.Prelude.Int.{ℤ}
use couchbase_health_observe.Prelude.Dict.{Dict}
use couchbase_health_observe.Svchealth.Types.{Status, up, degraded, down, Probe, Reason}
use couchbase_health_observe.Failover.Machine.{Config, Machine}
use couchbase_health_observe.Actuator.Types.{Ref}
use couchbase_health_observe.Observer.Actuators.{Actuators}
use couchbase_health_observe.Observer.Switching.{SwitchAnswer, Counters, Line, Event}

-- The two clusters: the name in `activeRole`, and the prober that `activeProber` points to.
pub data Role : Type 0 where
  primary secondary : Role

abbrev pub primary_name : Str
primary_name = bytes "primary"

abbrev pub secondary_name : Str
secondary_name = bytes "secondary"

-- The flags that the loop reads, and what startup made of them. `secondary_prober` is whether the
-- connection to the secondary was made.
pub record LoopConfig : Type 0 where
  pub actuators : Actuators
  pub conn : Str
  pub secondary : Str
  pub critical : List Str
  pub dry_run : Bool
  pub config_maps : List Ref
  pub deployments : List Ref
  pub primary_region : Str
  pub secondary_region : Str
  pub secondary_prober : Bool
  pub machine : Config

-- What the world answers during one tick. The machine's clock is read on its own; the later reads
-- of the clock are taken to be one.
pub record TickInput : Type 0 where
  pub primary_probes : List Probe
  pub secondary_probes : List Probe
  pub checked_at : Str
  pub secondary_checked_at : Str
  pub observed_at : ℤ
  pub now : ℤ
  pub act : SwitchAnswer
  pub notify_failed : Bool

pub record Metrics : Type 0 where
  pub couchbase_up : Dict Bool
  pub service_up : Dict Bool
  pub active_region : Dict Bool
  pub secondary_up : Option Bool
  pub sustained_down : Option ℤ
  pub loop_last_tick : Option ℤ

-- `DeleteLabelValues`.
unfoldable pub remove {ℓ} : {V : Type ℓ} → Str → Dict V → Dict V
remove k [] = []
remove k ((j, v) ∷ m) = let rest = remove k m in if str_eq j k then rest else (j, v) ∷ rest

-- The log lines of the loop, by event name, with the fields that vary.
pub data LoopLine : Type 0 where
  cluster_detail : Role → ℕ → ℕ → LoopLine
  cluster_nodes : Role → Str → LoopLine
  cluster_map : Str → LoopLine
  host_removed host_added : Str → Role → LoopLine
  failover_countdown_start : LoopLine
  health : Bool → Status → Reason → Bool → Bool → Role → LoopLine
  switch_skipped : LoopLine
  switch_held : Status → LoopLine
  switch_required : LoopLine
  switching : Line → LoopLine
  probe_target probe_target_held probe_target_unavailable : LoopLine

-- The variables of the loop. `last_status` is none for the empty text that forces the first line,
-- `last_hosts` is none for the nil map.
pub record LoopState : Type 0 where
  pub machine : Machine
  pub role : Role
  pub prober : Role
  pub last_status : Option Status
  pub last_hosts : Option (List Str)
  pub metrics : Metrics
  pub counters : Counters
  pub first_eval : Bool
  pub lines : List LoopLine
  pub sent : List Event

abbrev pub same : Status → Status → Bool
same up up = true
same degraded degraded = true
same down down = true
same _ _ = false

abbrev pub is_same_status : Option Status → Status → Bool
is_same_status none s = false
is_same_status (some t) s = same t s
