-- ===== src/Webhook/Texts.antt =====
-- What a delivery writes to the log and returns, as text (pkg/notify/http.go). An error of net/http is
-- often a `*url.Error`, which holds a whole URL; a token may stand in its query. What it wraps is told
-- as the library has it. The level of a line, and whether the logger shows it, is left out.
use couchbase_health_observe.Prelude.{
  ℕ, Bool, true, false, if◌then◌else◌, arith, ◌≡◌, List, [], ◌∷◌, ◌++◌, Option, none, some, Str,
  bytes,
}
use couchbase_health_observe.Prelude.Decimal.{decimal}
use couchbase_health_observe.Observer.Switching.{Event}
use couchbase_health_observe.Webhook.{
  Transport, unencodable, unbuildable, unanswered, responded, NotifyError, marshal_failed,
  build_failed, post_failed, unexpected_status, cancelled, WebhookLine, webhook_dry_run,
  webhook_called, webhook_failed, webhook_retry, Http, World, Delivery, stamped_event, notify,
}
use couchbase_health_observe.Webhook.Headers.{Url, redact_url}

-- An error of the library: a `*url.Error` with its operation, its URL and what it wraps, or another.
pub data CallError : Type 0 where
  url_error : Str → Str → Str → CallError
  other_error : Str → CallError

-- `errors.As(err, &ue)`, and the error that is then told.
unfoldable pub unwrapped : CallError → Str
unwrapped (url_error op url inner) = inner
unwrapped (other_error e) = e

-- What goes wrong in a call of the library, but for the URL: an error that is told within a
-- `*url.Error` of an operation, or alone.
pub data Failure : Type 0 where
  wrapped : Str → Str → Failure
  alone : Str → Failure

-- The error of the library, where a `*url.Error` holds the given URL.
unfoldable pub raised : Str → Failure → CallError
raised url (wrapped op inner) = url_error op url inner
raised url (alone e) = other_error e

-- What the calls of `post` come to.
pub data Wire : Type 0 where
  marshal_error : Str → Wire
  request_error do_error : Failure → Wire
  answered : ℕ → Wire

unfoldable pub transport_of : Str → Wire → Transport
unfolding unwrapped raised
transport_of url (marshal_error e) = unencodable e
transport_of url (request_error f) = unbuildable (unwrapped (raised url f))
transport_of url (do_error f) = unanswered (unwrapped (raised url f))
transport_of url (answered status) = responded status

-- The attempt gets as far as the call of `Do`.
unfoldable pub reaches_do : Wire → Bool
reaches_do (marshal_error e) = false
reaches_do (request_error f) = false
reaches_do (do_error f) = true
reaches_do (answered status) = true

-- `Error()`, for the redacted URL.
unfoldable pub error_text : Str → NotifyError → Str
unfolding decimal
error_text url (marshal_failed e) = bytes "marshal webhook payload: " ++ e
error_text url (build_failed e) = bytes "build webhook request to " ++ (url ++ (bytes ": " ++ e))
error_text url (post_failed e) = bytes "webhook post to " ++ (url ++ (bytes ": " ++ e))
error_text url (unexpected_status status) =
    bytes "webhook post: unexpected status " ++ decimal status
error_text url (cancelled e) = e

-- A value of a log line: a text, an int, or a duration of so many seconds.
pub data Attr : Type 0 where
  text : Str → Attr
  int seconds : ℕ → Attr

-- A line of `Notify`: the event and its attributes.
unfoldable pub line_text : Str → Event → WebhookLine → Str × List (Str × Attr)
unfolding error_text
line_text url ev webhook_dry_run = (
  bytes "webhook_dry_run",
  (bytes "url", text url)
      ∷ (bytes "from", text ev.from.label)
      ∷ (bytes "to", text ev.to.label)
      ∷ [],
)
line_text url ev (webhook_called status attempt) = (
  bytes "webhook_called",
  (bytes "url", text url) ∷ (bytes "status", int status) ∷ (bytes "attempt", int attempt) ∷ [],
)
line_text url ev (webhook_failed attempt e) = (
  bytes "webhook_failed",
  (bytes "url", text url)
      ∷ (bytes "attempts", int attempt)
      ∷ (bytes "err", text (error_text url e))
      ∷ [],
)
line_text url ev (webhook_retry attempt attempts e wait) = (
  bytes "webhook_retry",
  (bytes "url", text url)
      ∷ (bytes "attempt", int attempt)
      ∷ (bytes "attempts", int attempts)
      ∷ (bytes "err", text (error_text url e))
      ∷ (bytes "wait", seconds wait)
      ∷ [],
)

-- The surroundings of a delivery: what the calls of each attempt come to, `json.Marshal`, the clock
-- and the end of the context.
pub record Surroundings : Type 0 where
  pub wire : ℕ → Wire
  pub json_marshal : Event → Str
  pub sent_at : ℕ → Str
  pub done : ℕ → Option Str

-- The URL that a `*url.Error` holds is given for each attempt.
abbrev pub world_of : (ℕ → Str) → Surroundings → World
world_of held x = record {
  transport = λ k. transport_of (held k) (x.wire k);
  sent_at = x.sent_at;
  done = x.done;
}

-- The line of the body, which an attempt writes before its call of `Do`.
unfoldable pub body_lines : Str → Surroundings → World → Event → ℕ → List (Str × List (Str × Attr))
unfolding reaches_do stamped_event
body_lines url x w ev attempt =
    if reaches_do (x.wire attempt)
    then (
      bytes "webhook_body",
      (bytes "url", text url)
          ∷ (bytes "body", text (x.json_marshal (stamped_event w ev attempt)))
          ∷ [],
    )
      ∷ []
    else []

-- The lines of `post` that stand before a line of `Notify`: those of the attempt that it ends. The
-- line of a wait that is cut short comes after the one of its attempt.
unfoldable pub before :
    Str → Surroundings → World → Event → WebhookLine → List (Str × List (Str × Attr))
unfolding body_lines
before url x w ev webhook_dry_run = []
before url x w ev (webhook_called status attempt) = body_lines url x w ev attempt
before url x w ev (webhook_retry attempt attempts e wait) = body_lines url x w ev attempt
before url x w ev (webhook_failed attempt (cancelled c)) = []
before url x w ev (webhook_failed attempt e) = body_lines url x w ev attempt

unfoldable pub told_lines :
    Str → Surroundings → World → Event → List WebhookLine → List (Str × List (Str × Attr))
unfolding before line_text
told_lines url x w ev [] = []
told_lines url x w ev (l ∷ ls) =
    before url x w ev l ++ (line_text url ev l ∷ told_lines url x w ev ls)

-- The text of the error that `Notify` returns, and the log lines, for the redacted URL.
unfoldable pub texts_of :
    Str
    → Surroundings
    → World
    → Event
    → Option NotifyError × Delivery
    → Option Str × List (Str × List (Str × Attr))
unfolding error_text told_lines
texts_of url x w ev (none, delivery) = (none, told_lines url x w ev delivery.lines)
texts_of url x w ev (some e, delivery) =
    (some (error_text url e), told_lines url x w ev delivery.lines)

unfoldable pub notify_texts :
    (Str → Option Url)
    → Str
    → Http
    → (ℕ → Str)
    → Surroundings
    → Event
    → Option Str × List (Str × List (Str × Attr))
unfolding redact_url texts_of transport_of
notify_texts url_parse raw h held x ev =
    let w = world_of held x in texts_of (redact_url url_parse raw) x w ev (notify h w ev)

transport_of-url : (url url' : Str) (v : Wire) → transport_of url v ≡ transport_of url' v
unfolding transport_of unwrapped raised
transport_of-url url url' v = ground arith

-- Of the URL of the webhook, and of the URLs that the library's `*url.Error`s hold, the log lines of
-- a delivery and the error that it returns tell only the redacted form of the first: they are the
-- same for any two URLs that show the same scheme, host and path, whatever URLs the errors hold,
-- where the attempts come to the same otherwise. What a `*url.Error` wraps, and an error that is
-- none, are told as the library has them, so what these quote of a URL is told too.
pub notify_texts-discreet :
    (url_parse : Str → Option Url) (raw raw' : Str) (h : Http) (held held' : ℕ → Str)
    (x : Surroundings) (ev : Event)
    → redact_url url_parse raw ≡ redact_url url_parse raw'
    → notify_texts url_parse raw h held x ev ≡ notify_texts url_parse raw' h held' x ev
unfolding notify_texts
notify_texts-discreet url_parse raw raw' h held held' x ev shown =
    let worlds : world_of held x ≡ world_of held' x = λ i. record {
      transport = λ k. transport_of-url (held k) (held' k) (x.wire k) i;
      sent_at = x.sent_at;
      done = x.done;
    } in
    λ i. texts_of (shown i) x (worlds i) ev (notify h (worlds i) ev)
