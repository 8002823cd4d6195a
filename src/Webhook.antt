-- ===== src/Webhook.antt =====
-- Delivery of the switch request (pkg/notify/http.go). The transport, the clock and the caller's
-- context are outside: what they answer at each attempt is an argument. The `nil` forms of the
-- client, the clock, the logger and the backoff stand for their defaults.
pub mod Attempts
pub mod Headers
pub mod Budget
pub mod Rounds
pub mod Texts
pub mod Request
use couchbase_health_observe.Prelude.{
  ℕ, zero, suc, ◌+◌, Bool, true, false, not, ◌||◌, List, [], ◌∷◌, ◌++◌, Option, none, some, Str,
  ◌==◌, is_some, ltb, leb, if◌then◌else◌,
}
use couchbase_health_observe.Prelude.Int.{ℤ, pos, negsuc}
use couchbase_health_observe.Observer.Switching.{Event}

-- What an attempt comes to outside of the program: the payload that cannot be encoded, the request
-- that cannot be built, the call that fails, and the status that is answered.
pub data Transport : Type 0 where
  unencodable unbuildable unanswered : Str → Transport
  responded : ℕ → Transport

-- The errors of `post`, by their format, and the context's own error.
pub data NotifyError : Type 0 where
  marshal_failed build_failed post_failed : Str → NotifyError
  unexpected_status : ℕ → NotifyError
  cancelled : Str → NotifyError

pub data WebhookLine : Type 0 where
  webhook_dry_run : WebhookLine
  webhook_called : ℕ → ℕ → WebhookLine
  webhook_failed : ℕ → NotifyError → WebhookLine
  webhook_retry : ℕ → ℕ → NotifyError → ℕ → WebhookLine

pub record Http : Type 0 where
  pub retries : ℤ
  pub dry_run : Bool

-- The transport's answer and the clock at each attempt, and whether the wait after it is cut short.
pub record World : Type 0 where
  pub transport : ℕ → Transport
  pub sent_at : ℕ → Str
  pub done : ℕ → Option Str

-- What a delivery leaves behind: the payloads handed to the transport, and the log lines.
pub record Delivery : Type 0 where
  pub requests : List Event
  pub lines : List WebhookLine

-- Seconds to wait after a failed attempt.
unfoldable pub default_backoff : ℕ → ℕ
default_backoff attempt = attempt

unfoldable pub retryable : ℕ → Option NotifyError → Bool
retryable status err = is_some err || status == 0 || (leb 500 status || status == 429)

unfoldable pub post : Transport → ℕ × Option NotifyError
post (unencodable e) = (0, some (marshal_failed e))
post (unbuildable e) = (0, some (build_failed e))
post (unanswered e) = (0, some (post_failed e))
post (responded status) =
    if ltb status 200 || ltb 299 status
    then (status, some (unexpected_status status))
    else (status, none)

-- The payload of an attempt.
unfoldable pub stamped_event : World → Event → ℕ → Event
stamped_event w e attempt = record e { attempt = attempt; sent_at = w.sent_at attempt }

-- `Retries + 1`, and 1 where that is less than 1; the sum of the largest int wraps to a negative.
unfoldable pub attempts_of : ℤ → ℕ
attempts_of (pos n) = if n == 9223372036854775807 then 1 else suc n
attempts_of (negsuc n) = 1

module _ (w : World) (e : Event) (attempts : ℕ) where
  -- The loop from an attempt on, over the number of attempts that are left; the error is the last.
  unfoldable pub deliver : ℕ → ℕ → Option NotifyError → Delivery → Option NotifyError × Delivery
  unfolding retryable stamped_event default_backoff
  deliver zero attempt last d = (last, d)
  deliver (suc left) attempt last d =
      let (status, err) = post (w.transport attempt) in
      let sent = record d { requests = d.requests ++ (stamped_event w e attempt ∷ []) } in
      elim err [
        | none ↦ (none, record sent { lines = d.lines ++ (webhook_called status attempt ∷ []) })
        | some x ↦ elim (not (retryable status none) || attempt == attempts) [
          | true ↦ (some x, record sent { lines = d.lines ++ (webhook_failed attempt x ∷ []) })
          | false ↦
              let retry = webhook_retry attempt attempts x (default_backoff attempt) in
              elim (w.done attempt) [
                | some c ↦ (
                  some (cancelled c),
                  record sent {
                    lines = d.lines ++ (retry ∷ webhook_failed attempt (cancelled c) ∷ []);
                  },
                )
                | none ↦
                    deliver left (attempt + 1) (some x)
                      (record sent { lines = d.lines ++ (retry ∷ []) })
              ]
        ]
      ]

unfoldable pub notify : Http → World → Event → Option NotifyError × Delivery
unfolding attempts_of
notify h w e =
    let attempts = attempts_of h.retries in
    if h.dry_run
    then (none, record { requests = []; lines = webhook_dry_run ∷ [] })
    else deliver w e attempts attempts 1 none (record { requests = []; lines = [] })
