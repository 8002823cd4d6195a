-- ===== src/Webhook/Budget.antt =====
-- The worst case of a delivery (cmd/svchealthcheck/webhookflags.go), in nanoseconds of an int64:
-- as its 64 bits, so that a negative number is 2 ^ 64 less its absolute value.
use couchbase_health_observe.Prelude.{
  ℕ, zero, suc, ◌+◌, ◌-◌, ◌*◌, ◌%◌, ◌^◌, ◌≤◌, ◌<◌, ◌≡◌, refl, ap, ◌∙◌, arith, length, false,
}
use couchbase_health_observe.Prelude.Int.{ℤ, pos, negsuc}
use couchbase_health_observe.Observer.Switching.{Event}
use couchbase_health_observe.Webhook.{default_backoff, Http, World, attempts_of, notify}
use couchbase_health_observe.Webhook.Attempts.{notify-stops, payloads, attempts_of-bound}

abbrev pub word_size : ℕ
word_size = 18446744073709551616

abbrev pub second : ℕ
second = 1000000000

-- The loop over the attempts, so many of which are left.
unfoldable pub add_backoffs : ℕ → ℕ → ℕ → ℕ
add_backoffs zero attempt total = total
add_backoffs (suc left) attempt total =
    add_backoffs left (attempt + 1) ((total + default_backoff attempt * second) % word_size)

-- `retries + 1` as 64 bits.
abbrev tries : ℤ → ℕ
tries (pos n) = (n + 1) % word_size
tries (negsuc n) = (word_size - n) % word_size

-- The number of rounds of the loop.
abbrev rounds : ℤ → ℕ
rounds (pos n) = n
rounds (negsuc n) = 0

unfoldable pub webhook_worst_case : ℕ → ℤ → ℕ
unfolding add_backoffs
webhook_worst_case timeout retries =
    add_backoffs (rounds retries) 1 ((tries retries * timeout) % word_size)

-- The waits after the first so many attempts, from one on, where another attempt follows.
unfoldable pub backoffs : ℕ → ℕ → ℕ
backoffs zero attempt = 0
backoffs (suc left) attempt = attempt * second + backoffs left (attempt + 1)

-- How long a delivery takes: what each of its attempts took, and the waits between them.
unfoldable pub elapsed : (ℕ → ℕ) → ℕ → ℕ → ℕ
elapsed took zero attempt = 0
elapsed took (suc zero) attempt = took attempt
elapsed took (suc (suc n)) attempt =
    took attempt + attempt * second + elapsed took (suc n) (attempt + 1)

elapsed-bound :
    (took : ℕ → ℕ) (timeout n attempt : ℕ)
    → ((k : ℕ) → took k ≤ timeout)
    → elapsed took (suc n) attempt ≤ suc n * timeout + backoffs n attempt
unfolding elapsed backoffs
elapsed-bound took timeout zero attempt h = omega (arith, h attempt)
elapsed-bound took timeout (suc n) attempt h =
    omega (arith, h attempt, elapsed-bound took timeout n (attempt + 1) h)

backoffs_mono : (m n attempt : ℕ) → m ≤ n → backoffs m attempt ≤ backoffs n attempt
unfolding backoffs
backoffs_mono zero n attempt h = omega arith
backoffs_mono (suc m) zero attempt h = absurd (omega arith)
backoffs_mono (suc m) (suc n) attempt h =
    omega (arith, backoffs_mono m n (attempt + 1) (omega arith))

add_backoffs-exact :
    (left attempt total : ℕ)
    → total + backoffs left attempt < word_size
    → add_backoffs left attempt total ≡ total + backoffs left attempt
unfolding add_backoffs backoffs default_backoff
add_backoffs-exact zero attempt total h = omega arith
add_backoffs-exact (suc left) attempt total h =
    let same : (total + attempt * second) % word_size ≡ total + attempt * second = omega arith in
    rw same
      (add_backoffs-exact left (attempt + 1) (total + attempt * second) (omega arith) ∙ omega arith)

pub worst_case-exact :
    (timeout r : ℕ)
    → r < 2 ^ 63
    → suc r * timeout + backoffs r 1 < word_size
    → webhook_worst_case timeout (pos r) ≡ suc r * timeout + backoffs r 1
unfolding webhook_worst_case
worst_case-exact timeout r int h =
    let first : ((r + 1) % word_size) * timeout ≡ suc r * timeout =
      ap (λ i. i * timeout) (omega arith) in
    let whole : (((r + 1) % word_size) * timeout) % word_size ≡ suc r * timeout =
      rw first (omega arith) in
    rw whole (add_backoffs-exact r 1 (suc r * timeout) h)

times_mono : (n r t : ℕ) → n ≤ r → n * t ≤ r * t
times_mono zero r t h = omega arith
times_mono (suc n) zero t h = absurd (omega arith)
times_mono (suc n) (suc r) t h = omega (arith, times_mono n r t (omega arith))

length-payloads : (w : World) (e : Event) (n k : ℕ) → length (payloads w e n k) ≡ n
length-payloads w e zero k = refl
length-payloads w e (suc n) k = ap suc (length-payloads w e n (k + 1))

delivery-bound :
    (took : ℕ → ℕ) (timeout n r : ℕ)
    → ((k : ℕ) → took k ≤ timeout)
    → 1 ≤ n
    → n ≤ suc r
    → elapsed took n 1 ≤ suc r * timeout + backoffs r 1
delivery-bound took timeout zero r h low high = absurd (omega arith)
delivery-bound took timeout (suc n) r h low high = omega (
  arith,
  elapsed-bound took timeout n 1 h,
  backoffs_mono n r 1 (omega arith),
  times_mono (suc n) (suc r) timeout high,
)

-- Where no attempt takes longer than the client's timeout, and the worst case fits the integers of
-- the program, no delivery outside a dry run takes longer than the worst case that the startup
-- check compares with the liveness window, the waits between its attempts included.
pub notify-worst_case :
    (h : Http) (w : World) (e : Event) (took : ℕ → ℕ) (timeout r : ℕ)
    → h.dry_run ≡ false
    → h.retries ≡ pos r
    → r < 2 ^ 63
    → ((k : ℕ) → took k ≤ timeout)
    → suc r * timeout + backoffs r 1 < 2 ^ 63
    → elapsed took (length (notify h w e).1.requests) 1 ≤ webhook_worst_case timeout (pos r)
notify-worst_case h w e took timeout r real set int short fits =
    let (n, low, high, before, reason, result, sent) = notify-stops h w e real in
    let count : length (notify h w e).1.requests ≡ n = ap length sent ∙ length-payloads w e n 1 in
    let allowed : n ≤ suc r = omega (arith, high, ap attempts_of set, attempts_of-bound r) in
    rw (count, worst_case-exact timeout r int (omega arith))
      (delivery-bound took timeout n r short low allowed)
