-- ===== src/Observer/Startup/Types.antt =====
-- The data of startup (cmd/svchealthcheck/main.go): its flags, what it asks from outside, the ways it
-- ends, its log lines and what it hands to the loop.
use couchbase_health_observe.Prelude.{ℕ, Bool, List, Option, Str}
use couchbase_health_observe.Prelude.Int.{ℤ}
use couchbase_health_observe.Tls.{Files, TlsError, ClientError, SecurityConfig, HttpClient}
use couchbase_health_observe.Actuator.Types.{Ref, Error}
use couchbase_health_observe.Actuator.Access.{ClientGo}
use couchbase_health_observe.Webhook.Headers.{Header, HeaderError, Url}
use couchbase_health_observe.Observer.Actuators.{FlagError}
use couchbase_health_observe.Observer.System.{SystemConfig}

-- The flags that are read. The three durations that the budget is made of are the 64 bits of their
-- nanoseconds.
pub record Flags : Type 0 where
  pub mode : Str
  pub actuators : Str
  pub conn : Str
  pub critical : Str
  pub addr : Str
  pub interval : ℕ
  pub probe_timeout : ℕ
  pub failover_delay : ℤ
  pub secondary : Str
  pub namespace : Str
  pub config_map : Str
  pub config_key : Str
  pub deployments : Str
  pub dry_run : Bool
  pub tls_cert_path : Str
  pub tls_skip_verify : Bool
  pub webhook_url : Str
  pub webhook_user : Str
  pub webhook_pass : Str
  pub webhook_headers : List Str
  pub webhook_timeout : ℕ
  pub webhook_retries : ℤ
  pub webhook_ca_cert : Str
  pub webhook_skip_verify : Bool
  pub log_level : Str

-- The environment's headers and credentials, `url.Parse`, the files, the connection that `gocb.Connect` makes or its error, the
-- KUBECONFIG, client-go and `net.ParseIP`.
pub record Outside : Type 0 where
  pub env_headers : Str
  pub env_user : Str
  pub env_pass : Str
  pub url_parse : Str → Option Url
  pub files : Files
  pub connect_error : Str → SecurityConfig → Option Str
  pub kubeconfig : Str
  pub client_go : ClientGo
  pub is_ip : Str → Bool

-- Why the process ends: by `os.Exit(2)`, or by `log.Fatal`.
pub data StartError : Type 0 where
  bad_log_level : Str → StartError
  bad_actuators : FlagError → StartError
  no_webhook_url : StartError
  bad_header : HeaderError → StartError
  bad_webhook_ca : ClientError → StartError
  bad_tls : TlsError → StartError
  connect_failed k8s_config k8s_client : Str → StartError
  bad_config_maps bad_deployments : Error → StartError

pub data StartLine : Type 0 where
  mode_deprecated : Str → Str → StartLine
  webhook_window_tight : ℕ → ℕ → ℕ → ℕ → StartLine
  liveness_window_tight : ℕ → ℕ → StartLine
  ignoring_cert_path : Str → StartLine
  startup : Str → Str → Str → StartLine
  namespace_unpaired : Str → ℕ → StartLine
  adopt_switched : Str → StartLine
  adopt_mixed : Str → ℕ → ℕ → Str → StartLine
  clusters : Str → Str → StartLine
  active_config : ℤ → Str → Str → Bool → Bool → Str → StartLine
  secondary_connect_failed : Str → StartLine
  webhook_insecure : Str → StartLine
  webhook_target : Str → Str → Str → ℕ → ℤ → StartLine

-- The targets, and whether the switch is adopted.
pub record Targets : Type 0 where
  pub config_maps : List Ref
  pub deployments : List Ref
  pub already_switched : Bool

-- What checking the webhook's inputs leaves: both are nil where its actuator is off.
pub record WebhookInputs : Type 0 where
  pub headers : List Header
  pub client : Option HttpClient

-- What the notifier is made of; the dry run and the retries stand in the loop's configuration.
pub record Notifier : Type 0 where
  pub url : Str
  pub user : Str
  pub pass : Str
  pub inputs : WebhookInputs

-- What the loop starts with, if there is one; a notifier that is off is nil.
pub data Running : Type 0 where
  observe_only : Running
  looping : SystemConfig → Option Notifier → Running
