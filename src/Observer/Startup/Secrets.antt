-- ===== src/Observer/Startup/Secrets.antt =====
-- What startup logs of the webhook (cmd/svchealthcheck/main.go).
use couchbase_health_observe.Prelude.{false, ◌≡◌, ap, ◌∙◌, List, Option, Str, is_nil, length, arith}
use couchbase_health_observe.Webhook.Headers.{Header, Url, redact_url, resolve_cred}
use couchbase_health_observe.Webhook.Request.{auth_summary-discreet}
use couchbase_health_observe.Observer.Startup.{Flags, Outside, notifier_lines}

redact_url-same :
    (url_parse : Str → Option Url) (raw raw' : Str)
    → is_nil raw ≡ false
    → is_nil raw' ≡ false
    → url_parse raw ≡ url_parse raw'
    → redact_url url_parse raw ≡ redact_url url_parse raw'
unfolding redact_url
redact_url-same url_parse raw raw' full full' same = ground arith

-- No credential shows in the lines about the webhook: they are the same for any two settings of the
-- user's name, the password, the values and names of the headers, and the parts of the URL beside
-- scheme, host and path, as long as both have a user or both have none, and both have as many
-- headers. The webhook's other flags are the same, and an address is set.
pub notifier_lines-discreet :
    (o o' : Outside) (f f' : Flags) (headers headers' : List Header)
    → o.url_parse ≡ o'.url_parse
    → is_nil f.webhook_url ≡ false
    → is_nil f'.webhook_url ≡ false
    → o.url_parse f.webhook_url ≡ o.url_parse f'.webhook_url
    → is_nil (resolve_cred f.webhook_user o.env_user)
      ≡ is_nil (resolve_cred f'.webhook_user o'.env_user)
    → length headers ≡ length headers'
    → f.webhook_skip_verify ≡ f'.webhook_skip_verify
    → f.webhook_timeout ≡ f'.webhook_timeout
    → f.webhook_retries ≡ f'.webhook_retries
    → notifier_lines f o headers ≡ notifier_lines f' o' headers'
unfolding notifier_lines
notifier_lines-discreet o o' f f' headers headers' parse full full' same user count skip timeout
      retries =
    let url =
      redact_url-same o.url_parse f.webhook_url f'.webhook_url full full' same
      ∙ ap (λ p. redact_url p f'.webhook_url) parse in
    let auth =
      auth_summary-discreet (resolve_cred f.webhook_user o.env_user)
        (resolve_cred f'.webhook_user o'.env_user) headers headers' user count in
    ground (arith, url, auth, skip, timeout, retries)
