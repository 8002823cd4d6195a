-- ===== src/Obslog/Formats.antt =====
-- The formats of the events that `renderEvent` prints by one format each (pkg/obslog/human.go): the
-- event, its component, the format, and the fields that fill it.
use couchbase_health_observe.Prelude.{
  List, [], ◌∷◌, ◌++◌, Option, none, some, Str, bytes, str_eq, ◌==◌, ◌&&◌, if◌then◌else◌,
}

pub record Format : Type 0 where
  pub event : Str
  pub component : Str
  pub text : Str
  pub fields : List Str

abbrev format_of : Str → Str → Str → List Str → Format
format_of event component text fields = record {
  event = event;
  component = component;
  text = text;
  fields = fields;
}

unfoldable pub observer_formats : List Format
observer_formats =
    format_of (bytes "startup") (bytes "observer") (bytes "Started in %s mode on %s (critical: %s)")
      (bytes "mode" ∷ bytes "addr" ∷ bytes "critical" ∷ [])
    ∷ format_of (bytes "clusters") (bytes "observer") (bytes "Clusters: primary=%s, secondary=%s")
        (bytes "primary" ∷ bytes "secondary" ∷ [])
    ∷ format_of (bytes "active_config") (bytes "observer")
        (bytes
          "Config: failover-delay=%s configmaps=[%s] deployments=[%s] dry-run=%s already-switched=%s actuators=[%s]")
        (bytes "failover_delay"
          ∷ bytes "configmaps"
          ∷ bytes "deployments"
          ∷ bytes "dry_run"
          ∷ bytes "already_switched"
          ∷ bytes "actuators"
          ∷ [])
    ∷ format_of (bytes "adopt_switched") (bytes "observer")
        (bytes "Adopting already-switched state: now on %s; apps not rolled, primary DOWN expected")
        (bytes "secondary" ∷ [])
    ∷ format_of (bytes "adopt_mixed") (bytes "observer")
        (bytes "Mixed startup state: %s of %s ConfigMaps not yet on %s: %s; switch still pending")
        (bytes "pending_count" ∷ bytes "total" ∷ bytes "secondary" ∷ bytes "pending" ∷ [])
    ∷ format_of (bytes "target_namespace_unpaired") (bytes "observer")
        (bytes
          "%s namespace(s) hold a deployment target but no ConfigMap target: %s; those apps read a ConfigMap this observer never patches")
        (bytes "count" ∷ bytes "namespaces" ∷ [])
    ∷ format_of (bytes "liveness_window_tight") (bytes "observer")
        (bytes "Liveness window tight: 2x probe-timeout %s >= 3x interval %s")
        (bytes "twice_probe_timeout" ∷ bytes "window" ∷ [])
    ∷ format_of (bytes "secondary_connect_failed") (bytes "observer")
        (bytes "Secondary connect failed (treated as DOWN): %s") (bytes "err" ∷ [])
    ∷ format_of (bytes "probe_target") (bytes "observer") (bytes "Health probes now follow %s")
        (bytes "target" ∷ [])
    ∷ format_of (bytes "probe_target_held") (bytes "observer")
        (bytes "Health probes stay on %s - %s moved nothing, so the apps still read it")
        (bytes "using" ∷ bytes "reason" ∷ [])
    ∷ format_of (bytes "probe_target_unavailable") (bytes "observer")
        (bytes
          "Cannot probe %s; health probes stay on %s - reported health is NOT the active cluster")
        (bytes "want" ∷ bytes "using" ∷ [])
    ∷ format_of (bytes "mode_deprecated") (bytes "observer")
        (bytes "--mode is deprecated and goes away next release; use %s") (bytes "replacement" ∷ [])
    ∷ []

unfoldable pub cluster_formats : List Format
cluster_formats =
    format_of (bytes "cluster_map") (bytes "cluster") (bytes "Cluster map: %s") (bytes "nodes" ∷ [])
    ∷ []

unfoldable pub failover_formats : List Format
failover_formats =
    format_of (bytes "failover_countdown_start") (bytes "failover")
      (bytes "Countdown started - switch to %s if %s stays DOWN %s")
      (bytes "secondary" ∷ bytes "active_region" ∷ bytes "delay" ∷ [])
    ∷ format_of (bytes "switch_required") (bytes "failover") (bytes "Switch required - %s DOWN")
        (bytes "active_region" ∷ [])
    ∷ format_of (bytes "switch_held") (bytes "failover")
        (bytes "Switch held - secondary not ready (%s)") (bytes "secondary_status" ∷ [])
    ∷ format_of (bytes "switch_skipped") (bytes "failover") (bytes "Switch skipped - %s")
        (bytes "reason" ∷ [])
    ∷ format_of (bytes "switched") (bytes "failover") (bytes "SWITCHED active cluster: %s -> %s")
        (bytes "from" ∷ bytes "to" ∷ [])
    ∷ format_of (bytes "switch_noop") (bytes "failover")
        (bytes "Already on %s: ConfigMaps needed no change") (bytes "active_region" ∷ [])
    ∷ format_of (bytes "actuation_error") (bytes "failover") (bytes "Actuation failed: %s")
        (bytes "err" ∷ [])
    ∷ []

unfoldable pub actuator_formats : List Format
actuator_formats =
    format_of (bytes "deployment_roll") (bytes "actuator") (bytes "Rolling deployment %s (ns=%s)")
      (bytes "deployment" ∷ bytes "namespace" ∷ [])
    ∷ format_of (bytes "roll_only") (bytes "actuator")
        (bytes "ConfigMaps already on %s; rolled %s deployment(s) to pick it up")
        (bytes "secondary" ∷ bytes "rolled" ∷ [])
    ∷ format_of (bytes "roll_skipped") (bytes "actuator")
        (bytes "Skipping rollout of %s (ns=%s): %s")
        (bytes "deployment" ∷ bytes "namespace" ∷ bytes "reason" ∷ [])
    ∷ []

unfoldable pub webhook_formats : List Format
webhook_formats =
    format_of (bytes "webhook_target") (bytes "webhook")
      (bytes "Webhook: POST %s (auth: %s, verify: %s, timeout %s, retries %s)")
      (bytes "url" ∷ bytes "auth" ∷ bytes "verify" ∷ bytes "timeout" ∷ bytes "retries" ∷ [])
    ∷ format_of (bytes "webhook_called") (bytes "webhook")
        (bytes "Webhook called: %s -> %s (attempt %s)")
        (bytes "url" ∷ bytes "status" ∷ bytes "attempt" ∷ [])
    ∷ format_of (bytes "webhook_retry") (bytes "webhook")
        (bytes "Webhook attempt %s/%s failed (%s), retrying in %s")
        (bytes "attempt" ∷ bytes "attempts" ∷ bytes "err" ∷ bytes "wait" ∷ [])
    ∷ format_of (bytes "webhook_failed") (bytes "webhook")
        (bytes "Webhook failed after %s attempts: %s") (bytes "attempts" ∷ bytes "err" ∷ [])
    ∷ format_of (bytes "webhook_dropped") (bytes "webhook")
        (bytes
          "Switch already performed by the Kubernetes actuator (%s); webhook notification dropped: %s")
        (bytes "active_region" ∷ bytes "err" ∷ [])
    ∷ format_of (bytes "webhook_dry_run") (bytes "webhook")
        (bytes "Webhook DRY RUN - would POST %s (%s -> %s)")
        (bytes "url" ∷ bytes "from" ∷ bytes "to" ∷ [])
    ∷ format_of (bytes "webhook_body") (bytes "webhook") (bytes "Webhook body: %s")
        (bytes "body" ∷ [])
    ∷ format_of (bytes "webhook_insecure") (bytes "webhook")
        (bytes "Webhook TLS verification DISABLED (insecure) for %s") (bytes "url" ∷ [])
    ∷ format_of (bytes "webhook_window_tight") (bytes "webhook")
        (bytes
          "Webhook budget tight: worst case %s (2x probe-timeout %s + webhook %s) >= 3x interval %s")
        (bytes "worst_case" ∷ bytes "probe_budget" ∷ bytes "webhook_budget" ∷ bytes "window" ∷ [])
    ∷ []

unfoldable pub formats : List Format
unfolding observer_formats cluster_formats failover_formats actuator_formats webhook_formats
formats =
    observer_formats
    ++ (cluster_formats ++ (failover_formats ++ (actuator_formats ++ webhook_formats)))

unfoldable pub find_format : Str → List Format → Option Format
find_format event [] = none
find_format event (f ∷ fs) = if str_eq f.event event then some f else find_format event fs

-- `Sprintf` of a format whose only verb is %s: the arguments in turn.
unfoldable pub sprintf : Str → List Str → Str
sprintf [] args = []
sprintf (c ∷ []) args = c ∷ []
sprintf (c ∷ d ∷ text) [] = c ∷ sprintf (d ∷ text) []
sprintf (c ∷ d ∷ text) (a ∷ args) =
    let filled = sprintf text args in
    let copied = sprintf (d ∷ text) (a ∷ args) in
    if c == b'%' && d == b's' then a ++ filled else c ∷ copied
