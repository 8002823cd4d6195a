-- ===== src/Observer/Startup/Lines.antt =====
-- The log lines of startup that are reckoned (cmd/svchealthcheck/main.go): the liveness window, what
-- is adopted of a prior switch, and the notifier.
use couchbase_health_observe.Prelude.{
  ℕ, ◌+◌, ◌-◌, ◌*◌, ◌%◌, Bool, ◌&&◌, List, [], ◌∷◌, ◌++◌, Str, bytes, join, length, map,
  if◌then◌else◌, ltb,
}
use couchbase_health_observe.Prelude.Int.{ℤ, pos, negsuc, leb_ℤ}
use couchbase_health_observe.Obslog.Addresses.{address_list}
use couchbase_health_observe.Actuator.Types.{Ref, string}
use couchbase_health_observe.Webhook.Headers.{Header, resolve_cred, redact_url}
use couchbase_health_observe.Webhook.Request.{auth_summary}
use couchbase_health_observe.Webhook.Budget.{webhook_worst_case, word_size}
use couchbase_health_observe.Observer.Actuators.{Actuators}
use couchbase_health_observe.Observer.Startup.Types.{
  Flags, Outside, StartLine, webhook_window_tight, liveness_window_tight, adopt_switched,
  adopt_mixed, webhook_insecure, webhook_target,
}

abbrev signed : ℕ → ℤ
signed x = if ltb x 9223372036854775808 then pos x else negsuc (word_size - x - 1)

-- `a >= b` of two numbers of 64 bits, as signed ones.
unfoldable pub at_least : ℕ → ℕ → Bool
at_least a b = leb_ℤ (signed b) (signed a)

-- The lines about the liveness window.
unfoldable pub budget_lines : Flags → Actuators → List StartLine
unfolding at_least webhook_worst_case
budget_lines f acts =
    let probe_budget = (2 * f.probe_timeout) % word_size in
    let window = (3 * f.interval) % word_size in
    let webhook_budget = webhook_worst_case f.webhook_timeout f.webhook_retries in
    let worst = (probe_budget + webhook_budget) % word_size in
    if acts.webhook
    then if at_least worst window
      then webhook_window_tight worst probe_budget webhook_budget window ∷ []
      else []
    else if at_least probe_budget window
    then liveness_window_tight probe_budget window ∷ []
    else []

-- `refList`, and the names under which the logs show the clusters.
unfoldable pub ref_list : List Ref → Str
ref_list refs = join (bytes " ") (map string refs)

abbrev secondary_display : Flags → Str
secondary_display f = bytes "secondary (" ++ (address_list f.secondary ++ bytes ")")

-- What the `switch` after the reconcile logs.
unfoldable pub adoption_lines : Flags → List Ref → Bool → List Ref → List StartLine
unfolding ref_list
adoption_lines f config_maps already stale =
    if already
    then adopt_switched (secondary_display f) ∷ []
    else if ltb 0 (length stale) && ltb (length stale) (length config_maps)
    then adopt_mixed (ref_list stale) (length stale) (length config_maps) (secondary_display f) ∷ []
    else []

-- What is logged of the notifier.
unfoldable pub notifier_lines : Flags → Outside → List Header → List StartLine
unfolding redact_url auth_summary resolve_cred
notifier_lines f o headers =
    let url = redact_url o.url_parse f.webhook_url in
    let user = resolve_cred f.webhook_user o.env_user in
    let verify = if f.webhook_skip_verify then bytes "OFF" else bytes "on" in
    let target =
      webhook_target url (auth_summary user headers) verify f.webhook_timeout f.webhook_retries in
    if f.webhook_skip_verify then webhook_insecure url ∷ target ∷ [] else target ∷ []
