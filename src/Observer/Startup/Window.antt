-- ===== src/Observer/Startup/Window.antt =====
-- What the silence of startup about its liveness window promises (cmd/svchealthcheck/main.go).
use couchbase_health_observe.Prelude.{
  ℕ, suc, ◌+◌, ◌*◌, ◌^◌, ◌≤◌, ◌<◌, ◌%◌, ◌≡◌, true, false, ap, ◌∙◌, [], arith, length,
}
use couchbase_health_observe.Prelude.Int.{pos}
use couchbase_health_observe.Observer.Switching.{Event}
use couchbase_health_observe.Observer.Actuators.{Actuators}
use couchbase_health_observe.Webhook.{Http, World, notify}
use couchbase_health_observe.Webhook.Budget.{
  webhook_worst_case, backoffs, elapsed, notify-worst_case, worst_case-exact, word_size,
}
use couchbase_health_observe.Observer.Startup.{Flags, budget_lines, at_least}

at_least-plain : (a b : ℕ) → a < 2 ^ 63 → b < 2 ^ 63 → at_least a b ≡ false → a < b
unfolding at_least
at_least-plain a b low high h = ground arith

warned :
    (f : Flags) (acts : Actuators)
    → budget_lines f acts ≡ []
    → acts.webhook ≡ true
    → at_least
        (((2 * f.probe_timeout) % word_size
            + webhook_worst_case f.webhook_timeout f.webhook_retries)
          % word_size)
        ((3 * f.interval) % word_size)
      ≡ false
unfolding budget_lines
warned f acts quiet webhook = ground arith

-- Without a warning, the budget of a tick lies below the window.
budget_lines-quiet :
    (f : Flags) (acts : Actuators) (r : ℕ)
    → budget_lines f acts ≡ []
    → acts.webhook ≡ true
    → f.webhook_retries ≡ pos r
    → r < 2 ^ 63
    → 2 * f.probe_timeout + (suc r * f.webhook_timeout + backoffs r 1) < 2 ^ 63
    → 3 * f.interval < 2 ^ 63
    → 2 * f.probe_timeout + webhook_worst_case f.webhook_timeout (pos r) < 3 * f.interval
budget_lines-quiet f acts r quiet webhook set int fits window =
    let exact = worst_case-exact f.webhook_timeout r int (omega (arith, fits)) in
    let same = ap (webhook_worst_case f.webhook_timeout) set ∙ exact in
    let held =
      at_least-plain
        (((2 * f.probe_timeout) % word_size
            + webhook_worst_case f.webhook_timeout f.webhook_retries)
          % word_size)
        ((3 * f.interval) % word_size) (omega (arith, same, fits)) (omega (arith, window))
        (warned f acts quiet webhook) in
    omega (arith, held, same, exact, fits, window)

-- Where startup is silent about the window, with the webhook on and its numbers within the integers
-- of the program: a tick of at most four pings, each within the probe timeout, and a delivery whose
-- attempts each keep the webhook's timeout, waits included, takes less than the window and two
-- probe timeouts; with two pings, as the check has it, less than the window.
pub budget_lines-window :
    (f : Flags) (acts : Actuators) (h : Http) (w : World) (e : Event) (r : ℕ) (ping took : ℕ → ℕ)
    → budget_lines f acts ≡ []
    → acts.webhook ≡ true
    → f.webhook_retries ≡ pos r
    → h.retries ≡ f.webhook_retries
    → h.dry_run ≡ false
    → r < 2 ^ 63
    → 2 * f.probe_timeout + (suc r * f.webhook_timeout + backoffs r 1) < 2 ^ 63
    → 3 * f.interval < 2 ^ 63
    → ((k : ℕ) → ping k ≤ f.probe_timeout)
    → ((k : ℕ) → took k ≤ f.webhook_timeout)
    → let delivery = elapsed took (length (notify h w e).1.requests) 1 in
      (ping 0 + ping 1 + delivery < 3 * f.interval)
      × (ping 0 + ping 1 + ping 2 + ping 3 + delivery < 3 * f.interval + 2 * f.probe_timeout)
budget_lines-window f acts h w e r ping took quiet webhook set same real int fits window pings
      attempts =
    let below = budget_lines-quiet f acts r quiet webhook set int fits window in
    let bound =
      notify-worst_case h w e took f.webhook_timeout r real (same ∙ set) int attempts
        (omega (arith, fits)) in
    (
      omega (arith, below, bound, pings 0, pings 1),
      omega (arith, below, bound, pings 0, pings 1, pings 2, pings 3),
    )
