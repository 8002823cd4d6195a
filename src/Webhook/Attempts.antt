-- ===== src/Webhook/Attempts.antt =====
-- Which attempts a delivery makes, and what it returns (pkg/notify/http.go).
pub mod Delivered
use couchbase_health_observe.Prelude.{
  ℕ, zero, suc, ◌+◌, ◌≤◌, ◌<◌, Bool, true, false, not, ◌||◌, ◌&&◌, ◌≡◌, ◌∙◌, ap, ◌↔◌, ◌⊎◌, refl,
  List, [], ◌∷◌, ◌++◌, Option, none, some, ◌==◌, is_none, leb, if◌then◌else◌, arith, inl, inr,
  Bool-cases,
}
use mathlib.Core.Option
use mathlib.Core.List.{append_assoc}
use couchbase_health_observe.Prelude.Int.{ℤ, pos, negsuc}
use couchbase_health_observe.Observer.Switching.{Event}
use couchbase_health_observe.Webhook.{
  Transport, responded, NotifyError, cancelled, Http, World, Delivery, WebhookLine, webhook_retry,
  default_backoff, retryable, post, stamped_event, attempts_of, deliver, notify,
}

-- An answer of the 200s.
abbrev pub accepted : Transport → Bool
accepted (responded status) = leb 200 status && leb status 299
accepted _ = false

-- An answer that is no reason to give up: none at all, a server error, or too many requests.
abbrev pub passing : Transport → Bool
passing (responded status) = status == 0 || leb 500 status || status == 429
passing _ = true

abbrev retry_lines : ℕ → ℕ → Option NotifyError → List WebhookLine
retry_lines attempts k none = []
retry_lines attempts k (some x) = webhook_retry k attempts x (default_backoff k) ∷ []

abbrev pub error_of : ℕ × Option NotifyError → Option NotifyError
error_of (status, err) = err

module _ (w : World) where
  -- After the attempt another one follows, as long as any is left.
  abbrev pub goes_on : ℕ → Bool
  goes_on k = passing (w.transport k) && is_none (w.done k)

  -- What is returned where the attempt is the last.
  abbrev pub outcome : ℕ → ℕ → Option NotifyError
  outcome attempts k =
      if passing (w.transport k) && not (k == attempts)
      then Option.map cancelled (w.done k)
      else error_of (post (w.transport k))

module _ (w : World) (e : Event) where
  -- The payloads of so many attempts from one on.
  abbrev pub payloads : ℕ → ℕ → List Event
  payloads zero k = []
  payloads (suc n) k = stamped_event w e k ∷ payloads n (k + 1)

  deliver-stop :
      (attempts left k : ℕ) (last : Option NotifyError) (d : Delivery)
      → (goes_on w k && not (k == attempts)) ≡ false
      → let (err, d') = deliver w e attempts (suc left) k last d in
        (err ≡ outcome w attempts k) × (d'.requests ≡ d.requests ++ payloads 1 k)
  unfolding deliver post retryable
  deliver-stop attempts left k last d h = ground arith

  deliver-next :
      (attempts left k : ℕ) (last : Option NotifyError) (d : Delivery)
      → (goes_on w k && not (k == attempts)) ≡ true
      → (x : Option NotifyError) × (d' : Delivery) × (d'.requests ≡ d.requests ++ payloads 1 k)
        × (deliver w e attempts (suc left) k last d ≡ deliver w e attempts left (k + 1) x d')
  unfolding deliver post retryable default_backoff
  deliver-next attempts left k last d h =
      let x = error_of (post (w.transport k)) in
      (
        x,
        record {
          requests = d.requests ++ payloads 1 k;
          lines = d.lines ++ retry_lines attempts k x;
        },
        refl,
        ground arith,
      )

  -- The loop from `k` on stops at attempt `n`, the `m`-th after it.
  record StopsAt (attempts k m n : ℕ) (requests : List Event) (r : Option NotifyError × Delivery)
      : Type 0 where
    place : n ≡ k + m
    in_range : n ≤ attempts
    before : (j : ℕ) → k ≤ j → j < n → goes_on w j ≡ true
    reason : (goes_on w n ≡ false) ⊎ (n ≡ attempts)
    result : r.0 ≡ outcome w attempts n
    sent : r.1.requests ≡ requests ++ payloads (suc m) k

  stops_here :
      (attempts left k : ℕ) (last : Option NotifyError) (d : Delivery)
      → k ≤ attempts
      → (goes_on w k && not (k == attempts)) ≡ false
      → StopsAt attempts k 0 k d.requests (deliver w e attempts (suc left) k last d)
  stops_here attempts left k last d l h =
      let stop = deliver-stop attempts left k last d h in
      record {
        place = omega arith;
        in_range = l;
        before = λ j p q. absurd (omega arith);
        reason = ground arith;
        result = stop.0;
        sent = stop.1;
      }

  deliver-StopsAt :
      (attempts left k : ℕ) (last : Option NotifyError) (d : Delivery)
      → k + left ≡ attempts
      → (m : ℕ) × (n : ℕ) × StopsAt attempts k m n d.requests
          (deliver w e attempts (suc left) k last d)
  deliver-StopsAt attempts zero k last d h =
      (0, k, stops_here attempts 0 k last d (omega arith) (ground arith))
  deliver-StopsAt attempts (suc left) k last d h =
      elim (Bool-cases (goes_on w k && not (k == attempts))) [
        | inl next ↦
            let (x, d', sent, step) = deliver-next attempts (suc left) k last d next in
            let (m, n, s) = deliver-StopsAt attempts left (k + 1) x d' (omega arith) in
            (
              suc m,
              n,
              record {
                place = omega (arith, s.place);
                in_range = s.in_range;
                before = λ j p q. ground (arith, s.before j);
                reason = s.reason;
                result = ap (λ r. r.0) step ∙ s.result;
                sent = ground (
                  arith,
                  ap (λ r. r.1.requests) step,
                  s.sent,
                  sent,
                  append_assoc d.requests (payloads 1 k) (payloads (suc m) (k + 1)),
                );
              },
            )
        | inr stop ↦ (0, k, stops_here attempts (suc left) k last d (omega arith) stop)
      ]

attempts_of-suc : (retries : ℤ) → (left : ℕ) × (attempts_of retries ≡ suc left)
unfolding attempts_of
attempts_of-suc (negsuc n) = (0, refl)
attempts_of-suc (pos n) = elim (Bool-cases (n == 9223372036854775807)) [
  | inl wraps ↦ (0, ground arith)
  | inr fits ↦ (n, ground arith)
]

pub attempts_of-bound : (n : ℕ) → attempts_of (pos n) ≤ suc n
unfolding attempts_of
attempts_of-bound n = ground arith

abbrev unsent : Delivery
unsent = record { requests = []; lines = [] }

notify-deliver :
    (h : Http) (w : World) (e : Event) (left : ℕ)
    → h.dry_run ≡ false
    → attempts_of h.retries ≡ suc left
    → notify h w e ≡ deliver w e (attempts_of h.retries) (suc left) 1 none unsent
unfolding notify
notify-deliver h w e left real some_left =
    rw real (ap (λ i. deliver w e (attempts_of h.retries) i 1 none unsent) some_left)

notify-StopsAt :
    (h : Http) (w : World) (e : Event)
    → h.dry_run ≡ false
    → (m : ℕ) × (n : ℕ) × StopsAt w e (attempts_of h.retries) 1 m n [] (notify h w e)
notify-StopsAt h w e real =
    let (left, some_left) = attempts_of-suc h.retries in
    rw (notify-deliver h w e left real some_left)
      (deliver-StopsAt w e (attempts_of h.retries) left 1 none unsent (omega (arith, some_left)))

-- Outside a dry run, `Notify` stops at one attempt: the first after which none may follow (it was
-- accepted, its answer is no passing failure, or the wait after it was cut short), or else the last
-- of the allowed ones. It posts the event once for each attempt up to there, numbered from one, and
-- returns what that attempt came to: nil for an accepted one, the context's error where the wait
-- was cut short, the attempt's error otherwise.
pub notify-stops :
    (h : Http) (w : World) (e : Event)
    → h.dry_run ≡ false
    → let (err, d) = notify h w e in
      (n : ℕ) × (1 ≤ n)
      × (n ≤ attempts_of h.retries)
      × ((j : ℕ) → 1 ≤ j → j < n → goes_on w j ≡ true)
      × ((goes_on w n ≡ false) ⊎ (n ≡ attempts_of h.retries))
      × (err ≡ outcome w (attempts_of h.retries) n)
      × (d.requests ≡ payloads w e n 1)
notify-stops h w e real =
    let (m, n, s) = notify-StopsAt h w e real in
    let counted : suc m ≡ n = omega (arith, s.place) in
    (
      n,
      omega (arith, s.place),
      s.in_range,
      s.before,
      s.reason,
      s.result,
      s.sent ∙ ap (λ i. payloads w e i 1) counted,
    )
