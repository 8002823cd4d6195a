-- ===== src/Observer/Switching.antt =====
-- `runSwitch` and the switch event (cmd/svchealthcheck/switch.go). The two actuation paths are
-- external calls: what they answer is an argument, and a path that is off is `none`.
use couchbase_health_observe.Prelude.{
  ℕ, ◌+◌, Bool, true, false, not, ◌≡◌, ◌↔◌, ◌⊎◌, List, [], ◌∷◌, ◌++◌, Option, none, some, Str,
  bytes, is_nil, is_none, if◌then◌else◌, arith, map,
}
use couchbase_health_observe.Prelude.Int.{ℤ}
use couchbase_health_observe.Svchealth.Types.{Status, Reason}
use couchbase_health_observe.Actuator.Types.{Ref, string}
use couchbase_health_observe.Observer.Actuators.{Actuators, list}

-- One side of the switch in the payload; the status stands for the secondary only.
pub record Endpoint : Type 0 where
  pub role : Str
  pub conn : Str
  pub label : Str
  pub nodes : List Str
  pub status : Option Status

-- The payload of the webhook. `sent_at` and `attempt` are set for each attempt at delivery.
pub record Event : Type 0 where
  pub event : Str
  pub sent_at : Str
  pub attempt : ℕ
  pub reason : Reason
  pub sustained_down : ℤ
  pub from : Endpoint
  pub to : Endpoint
  pub config_maps : List Str
  pub deployments : List Str
  pub actuators : List Str
  pub dry_run : Bool

unfoldable pub ref_strings : List Ref → List Str
ref_strings refs = if is_nil refs then [] else map string refs

unfoldable pub new_switch_event :
    Actuators → Reason → ℤ → Endpoint → Endpoint → List Ref → List Ref → Bool → Event
unfolding ref_strings
new_switch_event acts reason sustained_down from to config_maps deployments dry_run =
    let ev : Event = record {
      event = bytes "switch_required";
      sent_at = [];
      attempt = 0;
      reason = reason;
      sustained_down = sustained_down;
      from = from;
      to = to;
      config_maps = [];
      deployments = [];
      actuators = list acts;
      dry_run = dry_run;
    } in
    if acts.k8s
    then record ev { config_maps = ref_strings config_maps; deployments = ref_strings deployments }
    else ev

-- The answer of `Act.Switch`, and that of `Notify`: an error, or none.
pub data SwitchAnswer : Type 0 where
  errored : SwitchAnswer
  answered : Bool → SwitchAnswer

pub data Line : Type 0 where
  actuation_error switched_line switch_noop webhook_dropped : Line

-- The metrics that a switch moves. A gauge of a time holds the time of its last write.
pub record Counters : Type 0 where
  pub failover_errors : ℕ
  pub failover_total : ℕ
  pub webhook_ok : ℕ
  pub webhook_error : ℕ
  pub last_actuation_success : Option ℤ
  pub webhook_last_success : Option ℤ

-- The variables of `runSwitch`, its log lines and the metrics.
pub record Progress : Type 0 where
  pub latch : Bool
  pub k8s_moved : Bool
  pub lines : List Line
  pub counters : Counters

-- The first block: the Kubernetes actuator, where it is on.
unfoldable pub run_act : Option SwitchAnswer → ℤ → Progress → Progress
run_act none now p = p
run_act (some errored) now p = record p {
  latch = false;
  lines = p.lines ++ (actuation_error ∷ []);
  counters = record (p.counters) { failover_errors = p.counters.failover_errors + 1 };
}
run_act (some (answered true)) now p = record p {
  k8s_moved = true;
  lines = p.lines ++ (switched_line ∷ []);
  counters = record (p.counters) {
    failover_total = p.counters.failover_total + 1;
    last_actuation_success = some now;
  };
}
run_act (some (answered false)) now p = record p {
  k8s_moved = true;
  lines = p.lines ++ (switch_noop ∷ []);
}

-- The second block: the notifier, where it is on; the answer is whether the delivery failed.
unfoldable pub run_notify : Bool → Option Bool → ℤ → Progress → Progress
run_notify act_off none now p = p
run_notify act_off (some false) now p = record p {
  counters = record (p.counters) {
    webhook_ok = p.counters.webhook_ok + 1;
    webhook_last_success = some now;
  };
}
run_notify act_off (some true) now p =
    let counted = record p {
      counters = record (p.counters) { webhook_error = p.counters.webhook_error + 1 };
    } in
    if act_off
    then record counted { latch = false }
    else if p.k8s_moved
    then record counted { lines = p.lines ++ (webhook_dropped ∷ []) }
    else counted

unfoldable pub run_switch : Option SwitchAnswer → Option Bool → ℤ → Counters → Progress
unfolding run_act run_notify
run_switch act notifier now counters =
    let start : Progress = record {
      latch = true;
      k8s_moved = false;
      lines = [];
      counters = counters;
    } in
    run_notify (is_none act) notifier now (run_act act now start)

abbrev failed_act : SwitchAnswer → Bool
failed_act errored = true
failed_act (answered b) = false

-- What the latch follows: the Kubernetes actuator alone where it is on, the webhook where it is
-- the only one, and nothing where both are off.
abbrev pub may_latch : Option SwitchAnswer → Option Bool → Bool
may_latch (some a) notifier = not (failed_act a)
may_latch none (some failed) = not failed
may_latch none none = true

abbrev pub has_dropped : List Line → Bool
has_dropped [] = false
has_dropped (webhook_dropped ∷ lines) = true
has_dropped (line ∷ lines) = has_dropped lines

-- The latch follows the Kubernetes result alone where that actuator is on, and the delivery where
-- the webhook is the only one. A dropped webhook is logged exactly where its delivery failed and
-- the Kubernetes actuator is on and did not fail; a failover is counted exactly where that actuator
-- reports that it switched.
pub run_switch-latch :
    (act : Option SwitchAnswer) (notifier : Option Bool) (now : ℤ) (c : Counters)
    → let p = run_switch act notifier now c in
      (p.latch ≡ may_latch act notifier)
      × ((has_dropped p.lines ≡ true) ↔ (
          (notifier ≡ some true) × ((act ≡ some (answered true)) ⊎ (act ≡ some (answered false)))))
      × ((p.counters.failover_total ≡ c.failover_total + 1) ↔ (act ≡ some (answered true)))
unfolding run_switch
run_switch-latch act notifier now c = ground arith
