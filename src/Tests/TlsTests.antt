-- ===== src/Tests/TlsTests.antt =====
-- The trust of the two connections for a certificate file (cmd/svchealthcheck/tls.go, pkg/notify/client.go).
use couchbase_health_observe.Prelude.Boot.{Checked, passed}
use couchbase_health_observe.Prelude.{
  Bool, true, false, ◌≡◌, ◌↔◌, refl, Str, bytes, str_eq, is_nil, if◌then◌else◌,
}
use couchbase_health_observe.Tls.{
  Files, TlsError, Trust, contents, unreadable, build_security_config, new_client, couchbase_trust,
  webhook_trust, roots, new_client-mirrors, mirrored,
}
use couchbase_health_observe.Prelude.{some, none}

-- One file, that holds a certificate.
abbrev files : Files
files = record {
  read_file = λ path.
      if str_eq path (bytes "ca.pem")
      then contents (bytes "PEM")
      else unreadable (bytes "no such file");
  has_certificates = λ pem. str_eq pem (bytes "PEM");
}

abbrev trusted : Str → Bool → Checked TlsError Trust
trusted path skip = couchbase_trust (build_security_config files path skip).0

pinned : trusted (bytes "ca.pem") false ≡ passed (roots (some (bytes "PEM")))
unfolding build_security_config str_eq
pinned = refl

new_client-mirrors_example :
    (webhook_trust (new_client files (bytes "ca.pem") false 5)
      ≡ mirrored (trusted (bytes "ca.pem") false))
    × ((pem : Str)
        → (trusted (bytes "ca.pem") false ≡ passed (roots (some pem))) ↔ (
            (false ≡ false)
            × (is_nil (bytes "ca.pem") ≡ false)
            × (files.read_file (bytes "ca.pem") ≡ contents pem)
            × (files.has_certificates pem ≡ true)))
    × ((trusted (bytes "ca.pem") false ≡ passed (roots none))
        ↔ ((false ≡ false) × (is_nil (bytes "ca.pem") ≡ true)))
new_client-mirrors_example = new_client-mirrors files (bytes "ca.pem") false 5
