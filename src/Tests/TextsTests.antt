-- ===== src/Tests/TextsTests.antt =====
-- A delivery to two URLs that differ in the token of their query (pkg/notify/http.go).
use couchbase_health_observe.Prelude.{
  ◌≡◌, refl, List, [], ◌∷◌, map, ◌++◌, Option, none, some, Str, bytes, false,
}
use couchbase_health_observe.Prelude.Int.{pos}
use couchbase_health_observe.Webhook.{Http, notify, deliver, post, attempts_of}
use couchbase_health_observe.Webhook.Headers.{Url, redact_url}
use couchbase_health_observe.Webhook.Texts.{
  Attr, do_error, wrapped, Surroundings, notify_texts, notify_texts-discreet,
}
use couchbase_health_observe.Tests.WebhookTests.{event}

abbrev hook : Str → Str
hook token = bytes "https://h/p?t=" ++ token

-- What `url.Parse` gives of both.
abbrev parse_hook : Str → Option Url
parse_hook raw = some (record { scheme = bytes "https"; host = bytes "h"; path = bytes "/p" })

abbrev refusing : Surroundings
refusing = record {
  wire = λ k. do_error (wrapped (bytes "Post") (bytes "refused"));
  json_marshal = λ e. bytes "{}";
  sent_at = λ k. [];
  done = λ k. none;
}

abbrev http : Http
http = record { retries = pos 1; dry_run = false }

texts : Str → Option Str × List (Str × List (Str × Attr))
unfolding notify_texts notify post deliver attempts_of
texts token = notify_texts parse_hook (hook token) http (λ k. hook token) refusing event

error_told : (texts (bytes "1")).0 ≡ some (bytes "webhook post to https://h/p: refused")
unfolding texts
error_told = refl

names_told :
    map (λ l. l.0) (texts (bytes "1")).1
    ≡ bytes "webhook_body"
      ∷ bytes "webhook_retry"
      ∷ bytes "webhook_body"
      ∷ bytes "webhook_failed"
      ∷ []
unfolding texts
names_told = refl

notify_texts-discreet_example : texts (bytes "1") ≡ texts (bytes "2")
unfolding texts redact_url
notify_texts-discreet_example =
    notify_texts-discreet parse_hook (hook (bytes "1")) (hook (bytes "2")) http
      (λ k. hook (bytes "1")) (λ k. hook (bytes "2")) refusing event refl
