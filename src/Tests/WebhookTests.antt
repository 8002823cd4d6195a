-- ===== src/Tests/WebhookTests.antt =====
-- A delivery that fails once and is accepted at the second attempt (pkg/notify).
use couchbase_health_observe.Prelude.{
  ◌∷◌, some, str_eq, bytes, Str, ℕ, ◌≤◌, ◌<◌, true, false, ◌≡◌, ◌⊎◌, refl, [], none, bytes, ◌==◌,
  if◌then◌else◌, arith,
}
use couchbase_health_observe.Prelude.Int.{pos}
use couchbase_health_observe.Svchealth.Types.{all_reachable}
use couchbase_health_observe.Observer.Switching.{Endpoint, Event}
use couchbase_health_observe.Prelude.Dict.{lookup}
use couchbase_health_observe.Obslog.Levels.{to_lower}
use couchbase_health_observe.Webhook.Headers.{Header}
use couchbase_health_observe.Webhook.Request.{
  Encoding, request_headers, request_headers-last, last_value,
}
use couchbase_health_observe.Webhook.Budget.{webhook_worst_case}
use couchbase_health_observe.Webhook.Rounds.{half, worst_case_rounds, worst_case_rounds_end}
use couchbase_health_observe.Webhook.{
  Transport, responded, Http, World, attempts_of, post, notify, deliver,
}
use couchbase_health_observe.Webhook.Attempts.{goes_on, outcome, payloads, notify-stops}

abbrev http : Http
http = record { retries = pos 2; dry_run = false }

abbrev answers : ℕ → Transport
answers k = if k == 1 then responded 503 else responded 200

abbrev pub world : World
world = record { transport = answers; sent_at = λ k. []; done = λ k. none }

abbrev side : Endpoint
side = record { role = []; conn = []; label = []; nodes = []; status = none }

abbrev pub event : Event
event = record {
  event = bytes "switch_required";
  sent_at = [];
  attempt = 0;
  reason = all_reachable;
  sustained_down = pos 0;
  from = side;
  to = side;
  config_maps = [];
  deployments = [];
  actuators = [];
  dry_run = false;
}

delivered : ((notify http world event).0 ≡ none)
unfolding notify deliver post
delivered = refl

notify-stops_example :
    let (err, d) = notify http world event in
    (n : ℕ) × (1 ≤ n)
    × (n ≤ attempts_of (pos 2))
    × ((j : ℕ) → 1 ≤ j → j < n → goes_on world j ≡ true)
    × ((goes_on world n ≡ false) ⊎ (n ≡ attempts_of (pos 2)))
    × (err ≡ outcome world (attempts_of (pos 2)) n)
    × (d.requests ≡ payloads world event n 1)
notify-stops_example = notify-stops http world event refl

-- Names in any case are the same name.
abbrev encoding : Encoding
encoding = record { canonical = to_lower; base64 = λ s. s }

abbrev origin : Str → Str → Header
origin name value = record { key = name; value = value }

request_headers-last_example :
    lookup (bytes "origin") (
      request_headers encoding
        (bytes "u")
        (bytes "p")
        (origin (bytes "Origin") (bytes "a") ∷ origin (bytes "ORIGIN") (bytes "b") ∷ []))
    ≡ some (bytes "b")
unfolding last_value to_lower str_eq
request_headers-last_example =
    request_headers-last encoding (bytes "u") (bytes "p")
      (origin (bytes "Origin") (bytes "a") ∷ origin (bytes "ORIGIN") (bytes "b") ∷ [])
      (bytes "origin")

worst_case_rounds_end_example :
    (worst_case_rounds 4 1000 3 ≡ some (webhook_worst_case 1000 (pos 3)))
    ⊎ ((4 ≡ half) × ((fuel : ℕ) → worst_case_rounds fuel 1000 3 ≡ none))
worst_case_rounds_end_example = worst_case_rounds_end 1000 3 (omega arith)
