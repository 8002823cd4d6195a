-- ===== src/Lambda/Eksauth.antt =====
-- The credentials of an EKS cluster (pkg/eksauth/eksauth.go). What the AWS SDK, the token generator
-- and client-go answer are arguments.
use couchbase_health_observe.Prelude.{Str, Option, none, some}
use couchbase_health_observe.Prelude.Boot.{Checked, passed, stopped}

-- Of a cluster's description, its endpoint and its CA in base64.
pub record Cluster : Type 0 where
  pub endpoint : Str
  pub ca_data : Str

pub record RestConfig : Type 0 where
  pub host : Str
  pub bearer_token : Str
  pub ca : Str

-- `LoadDefaultConfig`, `DescribeCluster` under its configuration, `DecodeString`, `NewGenerator`,
-- `GetWithOptions` of the generator, and the error of `NewForConfig`.
pub record Aws : Type 0 where
  pub default_config : Checked Str Str
  pub describe_cluster : Str → Str → Checked Str Cluster
  pub decode : Str → Checked Str Str
  pub generator : Checked Str Str
  pub token_of : Str → Str → Checked Str Str
  pub new_for_config : RestConfig → Option Str

pub data EksError : Type 0 where
  aws_config : Str → EksError
  describe_failed : Str → Str → EksError
  bad_ca token_generator get_token new_client : Str → EksError

infixl 5 ◌>>=◌
abbrev ◌>>=◌ : {A B : Type 0} → Checked EksError A → (A → Checked EksError B) → Checked EksError B
passed a >>= f = f a
stopped e >>= f = stopped e

abbrev or_as : {A : Type 0} → Checked Str A → (Str → EksError) → Checked EksError A
or_as (passed a) wrap = passed a
or_as (stopped e) wrap = stopped (wrap e)

unfoldable pub cluster_token : Aws → Str → Checked EksError Str
cluster_token aws name = do
  gen ← or_as aws.generator token_generator
  or_as (aws.token_of gen name) get_token

abbrev rest_config : Str → Str → Str → RestConfig
rest_config host token ca = record { host = host; bearer_token = token; ca = ca }

abbrev new_for_config : Aws → RestConfig → Checked EksError RestConfig
new_for_config aws rest = elim (aws.new_for_config rest) [
  | none ↦ passed rest
  | some e ↦ stopped (new_client e)
]

-- The configuration of the client that is made.
unfoldable pub clientset : Aws → Str → Checked EksError RestConfig
unfolding cluster_token
clientset aws name = do
  cfg ← or_as aws.default_config aws_config
  desc ← or_as (aws.describe_cluster cfg name) (describe_failed name)
  ca ← or_as (aws.decode desc.ca_data) bad_ca
  token ← cluster_token aws name
  new_for_config aws (rest_config desc.endpoint token ca)
