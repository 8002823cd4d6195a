-- ===== src/Observer/System/Notified.antt =====
-- An observer whose only actuator is the webhook (cmd/svchealthcheck, pkg/notify).
use couchbase_health_observe.Prelude.{
  ℕ, ◌≤◌, true, false, ◌≡◌, inl, inr, refl, ap, sym, ◌∙◌, List, [], ◌∷◌, ◌++◌, none, is_some, arith,
  Bool-cases,
}
use couchbase_health_observe.Actuator.Kube.{Kube}
use couchbase_health_observe.Webhook.{attempts_of, notify}
use couchbase_health_observe.Webhook.Attempts.{accepted, payloads, notify-stops}
use couchbase_health_observe.Webhook.Attempts.Delivered.{outcome-none}
use couchbase_health_observe.Observer.Switching.{Counters}
use couchbase_health_observe.Observer.Loop.State.{LoopConfig, TickInput, LoopState}
use couchbase_health_observe.Observer.Loop.{
  attempts, tick, watch, respond, perform, latched, follow_secondary, tick_report, switch_event,
  secondary_status,
}
use couchbase_health_observe.Observer.Loop.Latch.{told, switches}
use couchbase_health_observe.Observer.System.{
  SystemConfig, Surroundings, input_of, event_of, system_run, system_tick,
}
use couchbase_health_observe.Observer.System.Ticks.{state, cluster, tick-latch, start-latch}

-- A tick that attempts the switch hands its event to the notifier, where there is one.
loop-sent :
    (cfg : LoopConfig) (s : LoopState) (i : TickInput)
    → cfg.actuators.webhook ≡ true
    → attempts cfg i (told cfg s i).1 ≡ true
    → (tick cfg s i).sent
      ≡ s.sent ++ (switch_event cfg (watch cfg s i).0 i (tick_report cfg s i) ∷ [])
unfolding tick watch respond attempts perform latched follow_secondary tick_report switch_event
loop-sent cfg s i on attempted = ground (arith, on, attempted)

module _ (K : Kube) (c : SystemConfig) (counters : Counters) (w0 : K.World) where
  input_of-notify :
      (x : Surroundings) (s : LoopState) (w : K.World)
      → (input_of K c x s w).notify_failed ≡ is_some (notify c.http x.webhook (event_of c x s)).0
  unfolding input_of
  input_of-notify x s w = refl

  -- The event does not depend on what the two paths answer.
  event_of-input :
      (x : Surroundings) (s : LoopState) (w : K.World)
      → let i = input_of K c x s w in
        switch_event c.loop (watch c.loop s i).0 i (tick_report c.loop s i) ≡ event_of c x s
  unfolding input_of event_of watch tick_report switch_event secondary_status
  event_of-input x s w = refl

  -- The delivery that a tick makes in a state posts its event until the endpoint accepts it.
  abbrev pub Accepted : Surroundings → LoopState → Type 0
  Accepted x s =
      let e = event_of c x s in
      (n : ℕ) × (1 ≤ n)
      × (n ≤ attempts_of c.http.retries)
      × ((notify c.http x.webhook e).1.requests ≡ payloads x.webhook e n 1)
      × (accepted (x.webhook.transport n) ≡ true)

  notify-Accepted :
      (x : Surroundings) (s : LoopState)
      → c.http.dry_run ≡ false
      → (notify c.http x.webhook (event_of c x s)).0 ≡ none
      → Accepted x s
  notify-Accepted x s real quiet =
      let (n, low, high, before, reason, result, sent) =
        notify-stops c.http x.webhook (event_of c x s) real in
      let last = outcome-none x.webhook (attempts_of c.http.retries) n reason in
      (n, low, high, sent, last.0 (sym result ∙ quiet))

  -- The tick attempts the switch: the tests before it all pass.
  abbrev pub Attempted : Surroundings → List Surroundings → Type 0
  Attempted x older =
      let s = state K c counters w0 older in
      let i = input_of K c x s (cluster K c counters w0 older) in
      attempts c.loop i (told c.loop s i).1 ≡ true

  -- A tick that attempts the switch hands its event to the notifier.
  tick-sent :
      (x : Surroundings) (older : List Surroundings)
      → c.loop.actuators.webhook ≡ true
      → Attempted x older
      → (state K c counters w0 (x ∷ older)).sent
        ≡ (state K c counters w0 older).sent ++ (event_of c x (state K c counters w0 older) ∷ [])
  unfolding system_run system_tick
  tick-sent x older on attempted =
      let s = state K c counters w0 older in
      let i = input_of K c x s (cluster K c counters w0 older) in
      loop-sent c.loop s i on attempted
      ∙ ap (λ e. s.sent ++ (e ∷ [])) (event_of-input x s (cluster K c counters w0 older))

  -- One tick of the run delivered the switch: on a machine that was not latched yet it attempted the
  -- switch, handed its event to the notifier, which posted it until it was accepted, and latched.
  abbrev pub Notified : List Surroundings → Type 0
  Notified xs =
      (newer : List Surroundings) × (x : Surroundings) × (older : List Surroundings) × (xs
        ≡ newer ++ (x ∷ older))
      × ((state K c counters w0 older).machine.switched ≡ false)
      × Attempted x older
      × ((state K c counters w0 (x ∷ older)).sent
          ≡ (state K c counters w0 older).sent ++ (event_of c x (state K c counters w0 older) ∷ []))
      × Accepted x (state K c counters w0 older)
      × ((state K c counters w0 (x ∷ older)).machine.switched ≡ true)

  latching-none :
      (x : Surroundings) (xs : List Surroundings)
      → let s = state K c counters w0 xs in
        let i = input_of K c x s (cluster K c counters w0 xs) in
        c.loop.actuators.k8s ≡ false
        → c.loop.actuators.webhook ≡ true
        → switches c.loop i (told c.loop s i).1 ≡ true
        → (attempts c.loop i (told c.loop s i).1 ≡ true)
          × ((notify c.http x.webhook (event_of c x s)).0 ≡ none)
  latching-none x xs off on sw =
      let s = state K c counters w0 xs in
      ground (arith, input_of-notify x s (cluster K c counters w0 xs))

  -- With the webhook as the only actuator, outside a dry run: once a run of the system has a latched
  -- machine, though startup found none, one of its ticks delivered the switch. The machine was not
  -- latched before that tick; the tick attempted the switch and handed its event to the notifier; this
  -- posted the event, at most as often as the retries allow, until the endpoint accepted it; and the
  -- tick left the machine latched.
  pub run-Notified :
      (xs : List Surroundings)
      → c.loop.actuators.k8s ≡ false
      → c.loop.actuators.webhook ≡ true
      → c.http.dry_run ≡ false
      → c.loop.machine.already_switched ≡ false
      → (state K c counters w0 xs).machine.switched ≡ true
      → Notified xs
  run-Notified [] off on real fresh latched =
      absurd (ground (arith, start-latch K c counters w0, latched, fresh))
  run-Notified (x ∷ xs) off on real fresh latched =
      let s = state K c counters w0 xs in
      let i = input_of K c x s (cluster K c counters w0 xs) in
      let (latch, unlatched) = tick-latch K c counters w0 x xs in
      elim (Bool-cases (switches c.loop i (told c.loop s i).1)) [
        | inl sw ↦
            let (attempted, quiet) = latching-none x xs off on sw in
            (
              [],
              x,
              xs,
              refl,
              unlatched attempted,
              attempted,
              tick-sent x xs on attempted,
              notify-Accepted x s real quiet,
              latched,
            )
        | inr held ↦
            let earlier : s.machine.switched ≡ true = ground (arith, latch, latched, held) in
            let (newer, y, older, split, before, asked, handed, taken, moved) =
              run-Notified xs off on real fresh earlier in
            (x ∷ newer, y, older, ap (λ l. x ∷ l) split, before, asked, handed, taken, moved)
      ]
