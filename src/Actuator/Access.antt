-- ===== src/Actuator/Access.antt =====
-- The two ways to the Kubernetes API that both programs have (cmd/svchealthcheck/main.go and
-- cmd/switch-lambda/main.go). What client-go answers is an argument.
use couchbase_health_observe.Prelude.{Str, Option, is_nil, not, if◌then◌else◌}

pub data Access : Type 0 where
  kubeconfig : Str → Access
  in_cluster : Access

-- The errors of `BuildConfigFromFlags` or `InClusterConfig`, and that of `NewForConfig`.
pub record ClientGo : Type 0 where
  pub config_error : Access → Option Str
  pub client_error : Access → Option Str

-- By the environment's KUBECONFIG.
unfoldable pub access_of : Str → Access
access_of path = if not (is_nil path) then kubeconfig path else in_cluster
