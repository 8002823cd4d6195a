-- ===== src/Tls.antt =====
-- Which servers a connection trusts: `buildSecurityConfig` (cmd/svchealthcheck/tls.go) for Couchbase
-- and `NewClient` (pkg/notify/client.go) for the webhook. Reading a file and parsing PEM are outside.
use couchbase_health_observe.Prelude.{
  ℕ, Bool, true, false, not, ◌≡◌, ◌↔◌, Option, none, some, Str, is_nil, if◌then◌else◌, arith,
}
use couchbase_health_observe.Prelude.Boot.{Checked, passed, stopped}

pub data FileAnswer : Type 0 where
  contents unreadable : Str → FileAnswer

-- `os.ReadFile`, and whether `AppendCertsFromPEM` finds a certificate.
pub record Files : Type 0 where
  pub read_file : Str → FileAnswer
  pub has_certificates : Str → Bool

pub data TlsError : Type 0 where
  read_tls_cert_failed : Str → Str → TlsError
  no_tls_certs : Str → TlsError

pub data ClientError : Type 0 where
  read_webhook_ca_failed : Str → Str → ClientError
  no_webhook_ca_certs : Str → ClientError

-- The certificates of `TLSRootCAs` are those of a PEM text; none is the system's store.
pub record SecurityConfig : Type 0 where
  pub tls_skip_verify : Bool
  pub tls_root_cas : Option Str

-- The configuration, and whether the warning is logged that the certificate is ignored.
unfoldable pub build_security_config : Files → Str → Bool → Checked TlsError SecurityConfig × Bool
build_security_config files cert_path skip_verify =
    if skip_verify
    then (passed (record { tls_skip_verify = true; tls_root_cas = none }), not (is_nil cert_path))
    else if is_nil cert_path
    then (passed (record { tls_skip_verify = false; tls_root_cas = none }), false)
    else (
      elim (files.read_file cert_path) [
        | unreadable e ↦ stopped (read_tls_cert_failed cert_path e)
        | contents pem ↦
            if not (files.has_certificates pem)
            then stopped (no_tls_certs cert_path)
            else passed (record { tls_skip_verify = false; tls_root_cas = some pem })
      ],
      false,
    )

pub record HttpClient : Type 0 where
  pub timeout : ℕ
  pub insecure_skip_verify : Bool
  pub root_cas : Option Str

unfoldable pub new_client : Files → Str → Bool → ℕ → Checked ClientError HttpClient
new_client files ca_path skip_verify timeout =
    let client : HttpClient = record {
      timeout = timeout;
      insecure_skip_verify = false;
      root_cas = none;
    } in
    if skip_verify
    then passed (record client { insecure_skip_verify = true })
    else if not (is_nil ca_path)
    then elim (files.read_file ca_path) [
      | unreadable e ↦ stopped (read_webhook_ca_failed ca_path e)
      | contents pem ↦
          if not (files.has_certificates pem)
          then stopped (no_webhook_ca_certs ca_path)
          else passed (record client { root_cas = some pem })
    ]
    else passed client

-- What a connection trusts: any server, or the holders of certificates under the given roots.
pub data Trust : Type 0 where
  any_server : Trust
  roots : Option Str → Trust

abbrev trust : Bool → Option Str → Trust
trust true cas = any_server
trust false cas = roots cas

abbrev pub couchbase_trust : Checked TlsError SecurityConfig → Checked TlsError Trust
couchbase_trust (passed c) = passed (trust c.tls_skip_verify c.tls_root_cas)
couchbase_trust (stopped e) = stopped e

abbrev pub webhook_trust : Checked ClientError HttpClient → Checked ClientError Trust
webhook_trust (passed c) = passed (trust c.insecure_skip_verify c.root_cas)
webhook_trust (stopped e) = stopped e

-- The webhook's error for the same trouble with the file.
abbrev pub counterpart : TlsError → ClientError
counterpart (read_tls_cert_failed path e) = read_webhook_ca_failed path e
counterpart (no_tls_certs path) = no_webhook_ca_certs path

abbrev pub mirrored : Checked TlsError Trust → Checked ClientError Trust
mirrored (passed t) = passed t
mirrored (stopped e) = stopped (counterpart e)

-- For the same path and the same skip, the two connections trust the same servers, and where one
-- stops with an error the other does for the same trouble with the same file, each by its own error:
-- a file that cannot be read, or that holds no certificate. A certificate that is asked for is never
-- passed over in silence: without the skip, a path is accepted exactly if its file can be read and
-- holds a certificate, and then it alone is trusted; the system's store is trusted only where no
-- path is given.
pub new_client-mirrors :
    (files : Files) (path : Str) (skip : Bool) (timeout : ℕ)
    → let t = couchbase_trust (build_security_config files path skip).0 in
      (webhook_trust (new_client files path skip timeout) ≡ mirrored t)
      × ((pem : Str)
          → (t ≡ passed (roots (some pem))) ↔ (
              (skip ≡ false)
              × (is_nil path ≡ false)
              × (files.read_file path ≡ contents pem)
              × (files.has_certificates pem ≡ true)))
      × ((t ≡ passed (roots none)) ↔ ((skip ≡ false) × (is_nil path ≡ true)))
unfolding build_security_config new_client
new_client-mirrors files path skip timeout = (ground arith, λ pem. ground arith, ground arith)
