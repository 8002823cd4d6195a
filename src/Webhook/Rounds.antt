-- ===== src/Webhook/Rounds.antt =====
-- The loop of `webhookWorstCase` as it is written (cmd/svchealthcheck/webhookflags.go), whose counter
-- is an int64 that wraps: on fuel, `none` where the fuel does not last. Its numbers are 64 bits.
use couchbase_health_observe.Prelude.{
  ℕ, zero, suc, ◌+◌, ◌*◌, ◌%◌, ◌<◌, ◌≡◌, ◌⊎◌, refl, Option, none, some, Bool, true, false, leb,
  ◌==◌, ==_iff, Bool-cases, inl, inr, arith, if◌then◌else◌,
}
use couchbase_health_observe.Prelude.Int.{pos}
use couchbase_health_observe.Webhook.{default_backoff}
use couchbase_health_observe.Webhook.Budget.{word_size, second, add_backoffs, webhook_worst_case}

abbrev pub half : ℕ
half = 9223372036854775808

-- `a <= b` of two numbers of 64 bits, as signed ones.
abbrev int_leb : ℕ → ℕ → Bool
int_leb a b = leb ((a + half) % word_size) ((b + half) % word_size)

unfoldable pub add_rounds : ℕ → ℕ → ℕ → ℕ → Option ℕ
add_rounds zero retries attempt total = none
add_rounds (suc fuel) retries attempt total =
    let rest =
      add_rounds fuel retries ((attempt + 1) % word_size)
        ((total + default_backoff attempt * second) % word_size) in
    if int_leb attempt retries then rest else some total

unfoldable pub worst_case_rounds : ℕ → ℕ → ℕ → Option ℕ
unfolding add_rounds
worst_case_rounds fuel timeout retries =
    add_rounds fuel retries 1 ((((retries + 1) % word_size) * timeout) % word_size)

-- A round, where the test holds.
add_rounds-next :
    (fuel retries attempt total : ℕ)
    → int_leb attempt retries ≡ true
    → add_rounds (suc fuel) retries attempt total
      ≡ add_rounds fuel retries
          ((attempt + 1) % word_size)
          ((total + default_backoff attempt * second) % word_size)
unfolding add_rounds
add_rounds-next fuel retries attempt total h = rw h refl

add_rounds-exact :
    (left attempt total retries : ℕ)
    → attempt + left ≡ suc retries
    → suc retries < half
    → add_rounds (suc left) retries attempt total ≡ some (add_backoffs left attempt total)
unfolding add_backoffs
add_rounds-exact zero attempt total retries sum short =
    let past : int_leb attempt retries ≡ false = ground arith in unfold add_rounds in rw past refl
add_rounds-exact (suc left) attempt total retries sum short =
    let here : int_leb attempt retries ≡ true = ground arith in
    let next : (attempt + 1) % word_size ≡ attempt + 1 = omega arith in
    let total' = (total + default_backoff attempt * second) % word_size in
    rw (add_rounds-next (suc left) retries attempt total here, next)
      (add_rounds-exact left (attempt + 1) total' retries (omega arith) short)

endless : (fuel attempt total : ℕ) → add_rounds fuel 9223372036854775807 attempt total ≡ none
unfolding add_rounds
endless zero attempt total = refl
endless (suc fuel) attempt total = ground (
  arith,
  endless fuel ((attempt + 1) % word_size) ((total + default_backoff attempt * second) % word_size),
)

-- For every number of retries that an int can hold and that is not negative, the loop over the
-- attempts ends after one test more than there are retries, with the sum that the worst case is; but
-- for the largest int, of which the counter is never past: there the loop never ends.
pub worst_case_rounds_end :
    (timeout r : ℕ)
    → r < half
    → (worst_case_rounds (suc r) timeout r ≡ some (webhook_worst_case timeout (pos r)))
      ⊎ ((suc r ≡ half) × ((fuel : ℕ) → worst_case_rounds fuel timeout r ≡ none))
unfolding worst_case_rounds webhook_worst_case
worst_case_rounds_end timeout r int = elim (Bool-cases (suc r == half)) [
  | inl last ↦ inr (
    omega (arith, (==_iff (suc r) half).0 last),
    λ fuel.
        let r_max : r ≡ 9223372036854775807 = omega (arith, (==_iff (suc r) half).0 last) in
        rw r_max (endless fuel 1 ((((9223372036854775807 + 1) % word_size) * timeout) % word_size)),
  )
  | inr other ↦ inl (
      add_rounds-exact r 1 ((((r + 1) % word_size) * timeout) % word_size) r (omega arith)
        (ground arith))
]
