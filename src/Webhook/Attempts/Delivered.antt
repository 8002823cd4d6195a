-- ===== src/Webhook/Attempts/Delivered.antt =====
-- When a delivery returns no error (pkg/notify/http.go).
use couchbase_health_observe.Prelude.{
  ℕ, ◌≤◌, ◌<◌, true, false, ◌≡◌, ap, ◌↔◌, ◌⊎◌, [], none, arith, inl, inr, Bool-cases,
}
use couchbase_health_observe.Observer.Switching.{Event}
use couchbase_health_observe.Webhook.{Http, World, post, attempts_of, notify}
use couchbase_health_observe.Webhook.Attempts.{accepted, goes_on, outcome, notify-stops}

pub outcome-none :
    (w : World) (attempts n : ℕ)
    → (goes_on w n ≡ false) ⊎ (n ≡ attempts)
    → (outcome w attempts n ≡ none) ↔ (accepted (w.transport n) ≡ true)
unfolding post
outcome-none w attempts n reason = ground arith

-- An accepted attempt is the one at which the loop stops, if all before it could be followed.
accepted-last :
    (w : World) (attempts n k : ℕ)
    → (goes_on w n ≡ false) ⊎ (n ≡ attempts)
    → (k < n → goes_on w k ≡ true)
    → (n < k → goes_on w n ≡ true)
    → k ≤ attempts
    → accepted (w.transport k) ≡ true
    → n ≡ k
accepted-last w attempts n k reason before after high h = ground (arith, reason, before, after)

-- `Notify` returns nil exactly where it is a dry run, or some attempt among the allowed ones was
-- accepted and after every earlier one another could follow. A dry run posts nothing.
notify-delivered :
    (h : Http) (w : World) (e : Event)
    → let (err, d) = notify h w e in
      ((err ≡ none) ↔ (
        (h.dry_run ≡ true)
        ⊎ ((n : ℕ) × (1 ≤ n)
            × (n ≤ attempts_of h.retries)
            × ((j : ℕ) → 1 ≤ j → j < n → goes_on w j ≡ true)
            × (accepted (w.transport n) ≡ true))))
      × (h.dry_run ≡ true → d.requests ≡ [])
notify-delivered h w e = elim (Bool-cases h.dry_run) [
  | inl dry ↦ unfold notify in (ground arith, λ d. ground arith)
  | inr real ↦
      let (n, low, high, before, reason, result, sent) = notify-stops h w e real in
      let last = outcome-none w (attempts_of h.retries) n reason in
      (
        (
          λ delivered. inr (n, low, high, before, ground (arith, result, last)),
          λ reached. elim reached [
            | inl dry ↦ absurd (ground (arith, real, dry))
            | inr (k, from_one, allowed, followed, ok) ↦
                let same =
                  accepted-last w (attempts_of h.retries) n k reason (before k from_one)
                    (followed n low) allowed ok in
                ground (arith, result, last, ok, ap (λ i. accepted (w.transport i)) same)
          ],
        ),
        λ dry. absurd (ground (arith, real, dry)),
      )
]
