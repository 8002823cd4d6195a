-- ===== src/Lambda/Entry.antt =====
-- The entry point of the lambda (cmd/switch-lambda/main.go) with the choice of its client and the
-- chain of calls behind it (pkg/eksauth). The environment, the AWS SDK and client-go are outside.
pub mod Delivered
use couchbase_health_observe.Prelude.{
  ℕ, Bool, true, false, not, List, [], ◌∷◌, Option, none, some, Str, bytes, str_eq, is_nil, join,
  length, if◌then◌else◌,
}
use couchbase_health_observe.Prelude.Boot.{
  Boot, Checked, passed, stopped, pure, stop, stop_if, log, or_fail, or_error, ◌>>=◌, ◌>>◌,
}
use couchbase_health_observe.Actuator.Types.{Ref, Config, Error}
use couchbase_health_observe.Actuator.Access.{Access, ClientGo, access_of}
use couchbase_health_observe.Actuator.Kube.{Kube}
use couchbase_health_observe.Actuator.Refs.{parse_refs, parse_refs_required, unpaired_namespaces}
use couchbase_health_observe.Actuator.Switch.{switch}
use couchbase_health_observe.Lambda.Eksauth.{Aws, EksError, RestConfig, clientset}
use couchbase_health_observe.Lambda.{Json, HandleError, handle}

-- `os.Getenv`, which is empty for what is not set.
abbrev pub Env : Type 0
Env = Str → Str

unfoldable pub getenv : Env → Str → Str → Str
getenv env k default = if not (is_nil (env k)) then env k else default

-- The AWS side, and that of client-go.
pub record Clients : Type 0 where
  pub aws : Aws
  pub client_go : ClientGo

-- Why the process ends, by `log.Fatalf`.
pub data EntryError : Type 0 where
  bad_config_maps bad_deployments : Error → EntryError
  eks_client : EksError → EntryError
  k8s_config k8s_client : Str → EntryError
  oneshot_failed : HandleError → EntryError

pub data EntryLine : Type 0 where
  namespace_unpaired : ℕ → Str → EntryLine
  switch_lambda_ready : Config → EntryLine

-- One event was handled, or the runtime is handed the handler.
pub data Served : Type 0 where
  handled : Served
  started : Config → Served

abbrev unpaired_lines : List Str → List EntryLine
unpaired_lines [] = []
unpaired_lines (ns ∷ namespaces) =
    namespace_unpaired (length (ns ∷ namespaces)) (join (bytes " ") (ns ∷ namespaces)) ∷ []

unfoldable pub config_of : Env → List Ref → List Ref → Config
unfolding getenv
config_of env config_maps deployments = record {
  config_maps = config_maps;
  config_key = getenv env (bytes "CONFIG_KEY") (bytes "connstring");
  deployments = deployments;
  secondary = env (bytes "SECONDARY_CONN");
  dry_run = str_eq (env (bytes "DRY_RUN")) (bytes "true");
}

-- The clock's text of the one event, beside what is outside of the whole file.
module _ (K : Kube) (J : Json) (env : Env) (clients : Clients) (stamp : Str) where
  abbrev Entry : Type 0 → Type 0
  Entry A = Boot EntryError EntryLine K.World A

  -- The configuration that the environment asks for.
  unfoldable pub read_config : Entry Config
  unfolding getenv config_of
  read_config = do
    let default_ns = getenv env (bytes "NAMESPACE") (bytes "default")
    config_maps ←
        or_error (parse_refs_required (getenv env (bytes "CONFIGMAP") (bytes "cb-conn")) default_ns)
          bad_config_maps
    deployments ← or_error (parse_refs (env (bytes "DEPLOYMENTS")) default_ns) bad_deployments
    log (unpaired_lines (unpaired_namespaces config_maps deployments))
    pure (config_of env config_maps deployments)

  abbrev of_access : Access → Entry (Unit {0})
  of_access access = do
    or_error (tt, clients.client_go.config_error access) k8s_config
    or_error (tt, clients.client_go.client_error access) k8s_client

  abbrev of_eks : Checked EksError RestConfig → Entry (Unit {0})
  of_eks (passed rest) s = (passed tt, s)
  of_eks (stopped e) s = (stopped (eks_client e), s)

  -- The precedence of the three ways to the API.
  unfoldable pub must_clientset : Entry (Unit {0})
  unfolding clientset access_of
  must_clientset =
      let name = env (bytes "EKS_CLUSTER_NAME") in
      let path = env (bytes "KUBECONFIG") in
      if not (is_nil name) then of_eks (clientset clients.aws name) else of_access (access_of path)

  -- The one event of the environment, or the handler for the runtime.
  unfoldable pub one_shot : Config → Entry Served
  unfolding handle
  one_shot cfg (ls, w) =
      let event = env (bytes "ONESHOT_EVENT") in
      let (err, w') = handle J (switch K cfg stamp) event w in
      if is_nil event then (passed (started cfg), (ls, w)) else elim err [
        | none ↦ (passed handled, (ls, w'))
        | some e ↦ (stopped (oneshot_failed e), (ls, w'))
      ]

  unfoldable pub entry : Entry Served
  unfolding read_config must_clientset one_shot
  entry = do cfg ← read_config; must_clientset; log (switch_lambda_ready cfg ∷ []); one_shot cfg
