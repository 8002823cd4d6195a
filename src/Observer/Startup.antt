-- ===== src/Observer/Startup.antt =====
-- `main` up to its poll loop (cmd/svchealthcheck/main.go): the checks of the flags, the clients, the
-- targets and the adoption of a switch that was made before. What the standard library, the SDK and
-- the environment answer is an argument. What the web server that is started on the way serves is in
-- Serving.
pub mod Types
pub mod Lines
pub mod Checks
pub mod Adoption
pub mod Delivered
pub mod Secrets
pub mod Window
pub mod Restart
use couchbase_health_observe.Prelude.{
  ℕ, ◌+◌, ◌-◌, ◌*◌, ◌%◌, Bool, true, false, not, ◌&&◌, ◌||◌, List, [], ◌∷◌, ◌++◌, Option, none,
  some, Str, bytes, is_nil, is_none, join, length, map, if◌then◌else◌, ltb, leb,
}
use couchbase_health_observe.Prelude.Int.{ℤ, pos, negsuc, leb_ℤ}
use couchbase_health_observe.Prelude.Strings.{split}
use couchbase_health_observe.Tls.{
  Files, TlsError, SecurityConfig, build_security_config, HttpClient, new_client,
}
use couchbase_health_observe.Obslog.Levels as Levels
use couchbase_health_observe.Obslog.Addresses.{cluster_label, address_list}
use couchbase_health_observe.Actuator.Types.{Ref, Config, Error, string}
use couchbase_health_observe.Actuator.Access.{access_of}
use couchbase_health_observe.Actuator.Kube.{Kube}
use couchbase_health_observe.Actuator.Refs.{parse_refs, parse_refs_required, unpaired_namespaces}
use couchbase_health_observe.Webhook.{Http}
use couchbase_health_observe.Webhook.Headers.{
  Header, HeaderError, Parsed, parsed, rejected, resolve_headers, resolve_cred, redact_url,
}
use couchbase_health_observe.Webhook.Request.{auth_summary}
use couchbase_health_observe.Webhook.Budget.{webhook_worst_case, word_size}
use couchbase_health_observe.Observer.Actuators.{Actuators, FlagError, any, list, parse_actuators}
use couchbase_health_observe.Observer.Reconcile.{reconcile_already_switched}
use couchbase_health_observe.Observer.Loop.State.{LoopConfig}
use couchbase_health_observe.Observer.System.{SystemConfig, actuator_config}
unfoldable pub use couchbase_health_observe.Observer.Startup.Lines.{
  at_least, budget_lines, ref_list, adoption_lines, notifier_lines,
}
pub use couchbase_health_observe.Observer.Startup.Types.{
  Flags, Outside, StartError, bad_log_level, bad_actuators, no_webhook_url, bad_header,
  bad_webhook_ca, bad_tls, connect_failed, k8s_config, k8s_client, bad_config_maps, bad_deployments,
  StartLine, mode_deprecated, webhook_window_tight, liveness_window_tight, ignoring_cert_path,
  startup, namespace_unpaired, adopt_switched, adopt_mixed, clusters, active_config,
  secondary_connect_failed, Running, observe_only, looping, Targets, webhook_insecure,
  webhook_target, WebhookInputs, Notifier,
}
use couchbase_health_observe.Prelude.Boot.{
  Checked, passed, stopped, or_fail, or_error, Boot, pure, stop, stop_if, log, or_stop, ◌>>=◌, ◌>>◌,
}

abbrev of_header : {A : Type 0} → Parsed A → Checked HeaderError A
of_header (parsed a) = passed a
of_header (rejected e) = stopped e

abbrev pub level_of : Str → Option ℤ
level_of s = Levels.parse s

unfoldable pub system_config : Flags → Outside → Actuators → Targets → Bool → SystemConfig
unfolding cluster_label
system_config f o acts t secondary_prober = record {
  loop = record {
    actuators = acts;
    conn = f.conn;
    secondary = f.secondary;
    critical = split b',' f.critical;
    dry_run = f.dry_run;
    config_maps = t.config_maps;
    deployments = t.deployments;
    primary_region = cluster_label o.is_ip f.conn;
    secondary_region = cluster_label o.is_ip f.secondary;
    secondary_prober = secondary_prober;
    machine = record { failover_delay = f.failover_delay; already_switched = t.already_switched };
  };
  config_key = f.config_key;
  http = record { retries = f.webhook_retries; dry_run = f.dry_run };
}

-- The notifier that is made of the checked inputs.
unfoldable pub notifier_of : Flags → Outside → WebhookInputs → Notifier
unfolding resolve_cred
notifier_of f o inputs = record {
  url = f.webhook_url;
  user = resolve_cred f.webhook_user o.env_user;
  pass = resolve_cred f.webhook_pass o.env_pass;
  inputs = inputs;
}

module _ (K : Kube) (f : Flags) (o : Outside) where
  abbrev Start : Type 0 → Type 0
  Start A = Boot StartError StartLine K.World A

  -- The webhook's inputs, which are looked at only where its actuator is on.
  unfoldable pub check_webhook : Bool → Start WebhookInputs
  unfolding resolve_headers new_client
  check_webhook false = pure (record { headers = []; client = none })
  check_webhook true = do
    stop_if (is_nil f.webhook_url) no_webhook_url
    headers ← or_fail (of_header (resolve_headers f.webhook_headers o.env_headers)) bad_header
    client ←
        or_fail (new_client o.files f.webhook_ca_cert f.webhook_skip_verify f.webhook_timeout)
          bad_webhook_ca
    pure (record { headers = headers; client = some client })

  abbrev deprecation : Actuators → Bool → List StartLine
  deprecation acts false = []
  deprecation acts true =
      mode_deprecated f.mode (bytes "--actuators=" ++ join (bytes ",") (list acts)) ∷ []

  -- The flags of the log, the actuators and the webhook, and the budget of a tick.
  unfoldable pub check_flags : Start (Actuators × WebhookInputs)
  unfolding parse_actuators check_webhook budget_lines list
  check_flags = do
    or_stop (level_of f.log_level) (bad_log_level f.log_level)
    let (acts, deprecated, err) = parse_actuators f.actuators f.mode
    or_error (tt, err) bad_actuators
    log (deprecation acts deprecated)
    inputs ← check_webhook acts.webhook
    log (budget_lines f acts)
    pure (acts, inputs)

  -- The connection to the primary; its TLS options serve the secondary too.
  unfoldable pub connect_primary : Start SecurityConfig
  unfolding build_security_config
  connect_primary = do
    let (security, ignored) = build_security_config o.files f.tls_cert_path f.tls_skip_verify
    log (if ignored then ignoring_cert_path f.tls_cert_path ∷ [] else [])
    sec ← or_fail security bad_tls
    or_error (tt, o.connect_error f.conn sec) connect_failed
    pure sec

  unfoldable pub must_k8s_client : Start (Unit {0})
  unfolding access_of
  must_k8s_client = do
    or_error (tt, o.client_go.config_error (access_of o.kubeconfig)) k8s_config
    or_error (tt, o.client_go.client_error (access_of o.kubeconfig)) k8s_client

  abbrev need_client : Bool → Start (Unit {0})
  need_client false = pure tt
  need_client true = must_k8s_client

  abbrev unpaired_lines : List Str → List StartLine
  unpaired_lines [] = []
  unpaired_lines (ns ∷ namespaces) =
      namespace_unpaired (join (bytes " ") (ns ∷ namespaces)) (length (ns ∷ namespaces)) ∷ []

  abbrev pub reconcile_config : List Ref → List Ref → Config
  reconcile_config config_maps deployments = record {
    config_maps = config_maps;
    config_key = f.config_key;
    deployments = deployments;
    secondary = f.secondary;
    dry_run = f.dry_run;
  }

  unfoldable pub reconcile : List Ref → List Ref → Start (Bool × List Ref)
  unfolding reconcile_already_switched
  reconcile config_maps deployments (ls, w) =
      let (result, w') =
        reconcile_already_switched K (reconcile_config config_maps deployments) w in
      (passed result, (ls, w'))

  -- The targets of the Kubernetes actuator, where it is on, and what a prior instance left.
  unfoldable pub find_targets : Bool → Start Targets
  unfolding reconcile
  find_targets false =
      pure (record { config_maps = []; deployments = []; already_switched = false })
  find_targets true = do
    config_maps ← or_error (parse_refs_required f.config_map f.namespace) bad_config_maps
    deployments ← or_error (parse_refs f.deployments f.namespace) bad_deployments
    log (unpaired_lines (unpaired_namespaces config_maps deployments))
    (already, stale) ← reconcile config_maps deployments
    log (adoption_lines f config_maps already stale)
    pure (record {
      config_maps = config_maps;
      deployments = deployments;
      already_switched = already;
    })

  -- The connection to the secondary: whether there is one, and the line where it failed.
  unfoldable pub connect_secondary : SecurityConfig → Bool × List StartLine
  connect_secondary sec =
      if is_nil f.secondary then (false, []) else elim (o.connect_error f.secondary sec) [
        | none ↦ (true, [])
        | some e ↦ (false, secondary_connect_failed e ∷ [])
      ]

  -- The assembly of the loop, once some actuator is on.
  unfoldable pub prepare_loop : Actuators → WebhookInputs → SecurityConfig → Start Running
  unfolding find_targets connect_secondary system_config address_list list notifier_lines
      notifier_of
  prepare_loop acts inputs sec = do
    t ← find_targets acts.k8s
    log (
        clusters (address_list f.conn) (address_list f.secondary)
        ∷ active_config f.failover_delay (ref_list t.config_maps) (ref_list t.deployments) f.dry_run
            t.already_switched (join (bytes ",") (list acts))
        ∷ [])
    let (prober, lines) = connect_secondary sec
    log lines
    log (if acts.webhook then notifier_lines f o inputs.headers else [])
    pure (
        looping (system_config f o acts t prober)
          (if acts.webhook then some (notifier_of f o inputs) else none))

  abbrev pub mode_label : Bool → Str
  mode_label true = bytes "active"
  mode_label false = bytes "observe"

  unfoldable pub start_up : Start Running
  unfolding any must_k8s_client
  start_up = do
    (acts, inputs) ← check_flags
    sec ← connect_primary
    need_client acts.k8s
    log (startup (mode_label (any acts)) f.critical f.addr ∷ [])
    elim (any acts) [ false ↦ pure observe_only | true ↦ prepare_loop acts inputs sec ]
