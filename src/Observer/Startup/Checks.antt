-- ===== src/Observer/Startup/Checks.antt =====
-- Which flags startup accepts (cmd/svchealthcheck/main.go).
use couchbase_health_observe.Prelude.Boot.{Checked, passed, stopped, Checked-cases, is_passed}
use couchbase_health_observe.Prelude.{
  Bool, true, false, not, ◌&&◌, ◌||◌, ◌≡◌, List, [], ◌∷◌, ◌++◌, is_nil, is_none, is_some, arith,
  inl, inr,
}
use couchbase_health_observe.Tls.{TlsError, SecurityConfig, build_security_config, new_client}
use couchbase_health_observe.Actuator.Access.{access_of}
use couchbase_health_observe.Actuator.Kube.{Kube}
use couchbase_health_observe.Actuator.Refs.{parse_refs, parse_refs_required}
use couchbase_health_observe.Webhook.Headers.{Parsed, parsed, rejected, resolve_headers}
use couchbase_health_observe.Observer.Actuators.{Actuators, any, parse_actuators}
use couchbase_health_observe.Observer.Startup.{
  WebhookInputs, Flags, Outside, StartLine, startup, mode_label, level_of, check_webhook,
  check_flags, must_k8s_client, connect_primary, find_targets, prepare_loop, start_up,
}

abbrev pub is_parsed : {A : Type 0} → Parsed A → Bool
is_parsed (parsed a) = true
is_parsed (rejected e) = false

module _ (f : Flags) (o : Outside) where
  abbrev pub webhook_accepted : Bool
  webhook_accepted =
      not (is_nil f.webhook_url)
      && (is_parsed (resolve_headers f.webhook_headers o.env_headers)
          && is_passed
              (new_client o.files f.webhook_ca_cert f.webhook_skip_verify f.webhook_timeout))

  abbrev pub asked_actuators : Actuators
  asked_actuators = (parse_actuators f.actuators f.mode).0

  abbrev pub flags_accepted : Bool
  flags_accepted =
      is_some (level_of f.log_level)
      && (is_none (parse_actuators f.actuators f.mode).2
          && (not asked_actuators.webhook || webhook_accepted))

  -- The primary can be connected to, under the options that its flags ask for.
  abbrev connectable : Checked TlsError SecurityConfig → Bool
  connectable (stopped e) = false
  connectable (passed sec) = is_none (o.connect_error f.conn sec)

  abbrev pub primary_accepted : Bool
  primary_accepted = connectable (build_security_config o.files f.tls_cert_path f.tls_skip_verify).0

  abbrev pub targets_accepted : Bool
  targets_accepted =
      is_none (parse_refs_required f.config_map f.namespace).1
      && is_none (parse_refs f.deployments f.namespace).1

  abbrev pub client_accepted : Bool
  client_accepted =
      is_none (o.client_go.config_error (access_of o.kubeconfig))
      && is_none (o.client_go.client_error (access_of o.kubeconfig))

module _ (K : Kube) (f : Flags) (o : Outside) where
  check_webhook-accepted :
      (on : Bool) (s : List StartLine × K.World)
      → (is_passed (check_webhook K f o on s).0 ≡ (not on || webhook_accepted f o))
        × ((check_webhook K f o on s).1.1 ≡ s.1)
  unfolding check_webhook
  check_webhook-accepted on s = ground arith

  pub check_flags-accepted :
      (s : List StartLine × K.World)
      → (is_passed (check_flags K f o s).0 ≡ flags_accepted f o)
        × ((check_flags K f o s).1.1 ≡ s.1)
        × ((acts : Actuators) (inputs : WebhookInputs)
            → (check_flags K f o s).0 ≡ passed (acts, inputs)
            → acts ≡ asked_actuators f o)
  unfolding check_flags check_webhook
  check_flags-accepted s = (ground arith, ground arith, λ acts inputs e. ground arith)

  pub connect_primary-accepted :
      (s : List StartLine × K.World)
      → (is_passed (connect_primary K f o s).0 ≡ primary_accepted f o)
        × ((connect_primary K f o s).1.1 ≡ s.1)
  unfolding connect_primary
  connect_primary-accepted s = ground arith

  pub find_targets-accepted :
      (on : Bool) (s : List StartLine × K.World)
      → is_passed (find_targets K f o on s).0 ≡ (not on || targets_accepted f o)
  unfolding find_targets
  find_targets-accepted on s = ground arith

  prepare_loop-accepted :
      (acts : Actuators) (inputs : WebhookInputs) (sec : SecurityConfig)
      (s : List StartLine × K.World)
      → is_passed (prepare_loop K f o acts inputs sec s).0 ≡ (not acts.k8s || targets_accepted f o)
  unfolding prepare_loop
  prepare_loop-accepted acts inputs sec s = ground (arith, find_targets-accepted acts.k8s s)

  -- Startup gets through, to observing only or to the poll loop, exactly if the log level and the
  -- actuators are known ones, the webhook's address, headers and trust are in order where its
  -- actuator is on, the primary can be connected to under its TLS options, and where the Kubernetes
  -- actuator is on, a client can be made; with that actuator, also the targets must parse, and name a
  -- ConfigMap. Everything else ends the process before the loop.
  pub start_up-accepted :
      (s : List StartLine × K.World)
      → is_passed (start_up K f o s).0 ≡ (
          flags_accepted f o
          && (primary_accepted f o
              && (not (asked_actuators f o).k8s || (client_accepted f o && targets_accepted f o))))
  unfolding start_up any must_k8s_client access_of
  start_up-accepted s =
      let s1 = (check_flags K f o s).1 in
      let s2 = (connect_primary K f o s1).1 in
      elim (Checked-cases (check_flags K f o s).0) [
        | inr (e, bad) ↦ ground (arith, check_flags-accepted s)
        | inl ((acts, inputs), e1) ↦ elim (Checked-cases (connect_primary K f o s1).0) [
          | inr (e, bad) ↦ ground (arith, check_flags-accepted s, connect_primary-accepted s1)
          | inl (sec, e2) ↦
              let s3 : List StartLine × K.World =
                (s2.0 ++ (startup (mode_label K f o (any acts)) f.critical f.addr ∷ []), s2.1) in
              ground (
                arith,
                check_flags-accepted s,
                (check_flags-accepted s).2 acts inputs e1,
                connect_primary-accepted s1,
                prepare_loop-accepted acts inputs sec s3,
              )
        ]
      ]
