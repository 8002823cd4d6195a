-- ===== src/Tests/StartupTests.antt =====
-- The start of the observer beside a cluster (cmd/svchealthcheck/main.go), and an outage after it.
use couchbase_health_observe.Prelude.Boot.{Checked, passed, is_passed}
use couchbase_health_observe.Prelude.{
  Bool, length, ◌+◌, ◌<◌, arith, some, Str, true, false, not, ◌&&◌, ◌||◌, ◌≡◌, ◌⊎◌, refl, List, [],
  ◌∷◌, none, bytes, is_nil, str_eq,
}
use couchbase_health_observe.Prelude.Int.{pos}
use couchbase_health_observe.Tls.{unreadable}
use couchbase_health_observe.Actuator.Types.{has_ref, ref_eq}
use couchbase_health_observe.Actuator.Kube.{SameServer}
use couchbase_health_observe.Actuator.Kube.Memory.{Cluster, find, memory, memory-IsLawful}
use couchbase_health_observe.Actuator.Refs.{parse_refs_required}
use couchbase_health_observe.Observer.Startup.{
  Flags, Outside, Targets, system_config, StartError, StartLine, Running, looping, start_up,
  check_flags, must_k8s_client, connect_primary, find_targets, prepare_loop,
}
use couchbase_health_observe.Observer.Startup.Checks.{
  start_up-accepted, flags_accepted, primary_accepted, asked_actuators, targets_accepted,
  client_accepted,
}
use couchbase_health_observe.Webhook.Headers.{Header, resolve_cred}
use couchbase_health_observe.Observer.Startup.{notifier_lines}
use couchbase_health_observe.Observer.Startup.Secrets.{notifier_lines-discreet}
use couchbase_health_observe.Webhook.{Http, notify, default_backoff}
use couchbase_health_observe.Webhook.Budget.{elapsed, backoffs}
use couchbase_health_observe.Observer.Startup.{budget_lines}
use couchbase_health_observe.Observer.Startup.Window.{budget_lines-window}
use couchbase_health_observe.Tests.WebhookTests.{world, event}
use couchbase_health_observe.Observer.System.{SystemConfig}
use couchbase_health_observe.Prelude.Strings.{split, has_byte}
use couchbase_health_observe.Prelude.Strings.Space.{trim_space}
use couchbase_health_observe.Prelude.Dict.{lookup}
use couchbase_health_observe.Obslog.Levels.{parse}
use couchbase_health_observe.Actuator.Kube.{get}
use couchbase_health_observe.Observer.System.{Surroundings}
use couchbase_health_observe.Observer.System.Ticks.{AllSwitched, AllStamped}
use couchbase_health_observe.Observer.System.Ticks as System
use couchbase_health_observe.Observer.Startup.Restart.{restart-adopts}
use couchbase_health_observe.Observer.Reconcile.{all_read}
use couchbase_health_observe.Observer.Startup.Delivered.{start_up-delivered}
use couchbase_health_observe.Tests.SystemTests.{at_time, counters, after_outage}
use couchbase_health_observe.Tests.ActuatorTests.{config, cluster}

abbrev pub flags : Flags
flags = record {
  mode = [];
  actuators = bytes "k8s";
  conn = bytes "couchbase://p";
  critical = bytes "kv";
  addr = bytes ":8080";
  interval = 30;
  probe_timeout = 2;
  failover_delay = pos 10;
  secondary = bytes "S";
  namespace = bytes "a";
  config_map = bytes "c,b/c";
  config_key = bytes "k";
  deployments = bytes "d,b/d";
  dry_run = false;
  tls_cert_path = [];
  tls_skip_verify = true;
  webhook_url = [];
  webhook_user = [];
  webhook_pass = [];
  webhook_headers = [];
  webhook_timeout = 5;
  webhook_retries = pos 3;
  webhook_ca_cert = [];
  webhook_skip_verify = false;
  log_level = bytes "info";
}

abbrev pub outside : Outside
outside = record {
  env_headers = [];
  env_user = [];
  env_pass = [];
  url_parse = λ raw. some (record { scheme = bytes "https"; host = bytes "hook"; path = [] });
  files = record { read_file = λ path. unreadable (bytes "none"); has_certificates = λ pem. false };
  connect_error = λ conn sec. none;
  kubeconfig = [];
  client_go = record { config_error = λ access. none; client_error = λ access. none };
  is_ip = λ host. false;
}

start_up-accepted_example : is_passed (start_up memory flags outside ([], cluster [])).0 ≡ (
    flags_accepted flags outside
    && (primary_accepted flags outside
        && (not (asked_actuators flags outside).k8s
            || (client_accepted flags outside && targets_accepted flags outside))))
start_up-accepted_example = start_up-accepted memory flags outside ([], cluster [])

abbrev targets : Targets
targets = record {
  config_maps = (config false).config_maps;
  deployments = (config false).deployments;
  already_switched = false;
}

abbrev started : SystemConfig
started = system_config flags outside (record { k8s = true; webhook = false }) targets true

-- Its line names what startup computes through.
unfoldable startup_end : Checked StartError Running × (List StartLine × Cluster)
unfolding start_up must_k8s_client check_flags connect_primary find_targets prepare_loop parse
    str_eq trim_space split parse_refs_required has_byte has_ref ref_eq find get lookup
startup_end = start_up memory flags outside ([], cluster [])

let_through : startup_end.0 ≡ passed (looping started none)
unfolding startup_end
let_through = refl

abbrev ticks : List Surroundings
ticks = at_time 10 ∷ at_time 0 ∷ []

start_up-delivered_example :
    SameServer memory startup_end.1.1 (cluster [])
    × (is_nil started.loop.config_maps ≡ false)
    × AllSwitched memory started (System.cluster memory started counters startup_end.1.1 ticks)
    × ((false ≡ true)
        ⊎ AllStamped memory started (System.cluster memory started counters startup_end.1.1 ticks))
unfolding startup_end after_outage
start_up-delivered_example =
    start_up-delivered memory memory-IsLawful flags outside ([], cluster []) started none counters
      ticks refl refl refl refl

abbrev webhook_flags : Str → Str → Flags
webhook_flags url user = record flags { webhook_url = url; webhook_user = user }

abbrev token_header : Str → Header
token_header token = record { key = bytes "Token"; value = token }

notifier_lines-discreet_example :
    notifier_lines
      (webhook_flags (bytes "https://hook?t=1") (bytes "ann"))
      outside
      (token_header (bytes "x") ∷ [])
    ≡ notifier_lines
        (webhook_flags (bytes "https://hook?t=2") (bytes "bob"))
        outside
        (token_header (bytes "y") ∷ [])
unfolding resolve_cred
notifier_lines-discreet_example =
    notifier_lines-discreet outside outside (webhook_flags (bytes "https://hook?t=1") (bytes "ann"))
      (webhook_flags (bytes "https://hook?t=2") (bytes "bob")) (token_header (bytes "x") ∷ [])
      (token_header (bytes "y") ∷ []) refl refl refl refl refl refl refl refl refl

-- Five seconds for a tick, and three attempts of one second.
abbrev roomy : Flags
roomy = record flags {
  interval = 5000000000;
  probe_timeout = 1000000000;
  webhook_timeout = 1000000000;
  webhook_retries = pos 2;
}

abbrev notifier : Http
notifier = record { retries = pos 2; dry_run = false }

budget_lines-window_example :
    (1000000000
        + 1000000000
        + elapsed (λ k. 1000000000) (length (notify notifier world event).1.requests) 1
      < 15000000000)
    × (1000000000
          + 1000000000
          + 1000000000
          + 1000000000
          + elapsed (λ k. 1000000000) (length (notify notifier world event).1.requests) 1
        < 17000000000)
unfolding budget_lines backoffs default_backoff
budget_lines-window_example =
    budget_lines-window roomy (record { k8s = false; webhook = true }) notifier world event 2
      (λ k. 1000000000) (λ k. 1000000000) refl refl refl refl refl (omega arith) (omega arith)
      (omega arith) (λ k. omega arith) (λ k. omega arith)

-- The cluster after the outage, and what a second start gives the loop.
abbrev left : Cluster
left = System.cluster memory started counters startup_end.1.1 ticks

abbrev started_again : SystemConfig
started_again =
    system_config flags outside (record { k8s = true; webhook = false })
      (record targets { already_switched = true }) true

restart-adopts_example :
    (◌≡◌ {A = Bool} true true)
    × ((System.state memory started_again counters
          (start_up memory flags outside ([], left)).1.1
          []).machine.switched
        ≡ true)
    × SameServer memory (start_up memory flags outside ([], left)).1.1 left
unfolding startup_end after_outage all_read
restart-adopts_example =
    restart-adopts memory memory-IsLawful flags outside ([], cluster []) ([], left) started
      started_again none none counters counters ticks refl refl refl refl refl refl refl refl refl
