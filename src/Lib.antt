-- ===== src/Lib.antt =====
-- The Couchbase health observer: it probes a Couchbase cluster, derives a status from the critical
-- services, and once an outage has lasted the failover delay, it points the applications of a
-- Kubernetes cluster at the secondary Couchbase cluster. A run of the program is one poll loop:
-- every tick probes the active cluster, computes a report, tells it to the state machine, and where
-- the machine asks for the switch and the secondary is not down, calls the actuators.
--
-- Svchealth: pkg/svchealth. Compute is `Compute` (health.go), from probes to the report. Node is
--   node.go: `ByNode`, `NodeSummary`, `RenderNodes`, `HostSet` and `DiffHosts`. Gocb is
--   prober_gocb.go, from the SDK's endpoint reports to probes. Handler is the health endpoint
--   (api.go) and the prober that can be replaced (active.go).
-- Failover: pkg/state/machine.go. Machine has `New`, `Observe`, `MarkSwitched` and `DownSeconds`;
--   Machine/Clock is `time.Time.Sub` with its saturation. History is the specification: lists of
--   what a machine was told, the newest first, and what they say without the machine.
-- Actuator: pkg/actuator. Refs is refs.go, the targets. Kube is the Kubernetes API as a
--   parameter: a state, four calls, and the laws that a get and an update have; Kube/Memory is an
--   instance in which chosen calls fail. Switch is `K8sActuator.Switch` with its two loops
--   (k8s.go), Journal its log lines. Trace notes the calls of a switch, over an API without laws:
--   others may write between any two calls. Shared is several switches on one cluster, whose calls
--   interleave in any order, as a step relation. Crash is a process that stops after any number of
--   its calls: an API whose calls come to an end.
-- Observer: cmd/svchealthcheck. Actuators is actuators.go. Switching is switch.go: `runSwitch`
--   with its metrics and log lines, and the event for the webhook. Reconcile is
--   `reconcileAlreadySwitched` of main.go. Loop is the poll loop of main.go: `start` its state at
--   startup, `tick` one tick, Loop/Runs runs of any number of ticks from startup, and Loop/Metered
--   and Loop/Tally their metrics. System sets the loop, the Kubernetes actuator and the notifier together: a tick
--   of it gets its answers from the switch of a cluster that it changes. Startup is `main` up to
--   the loop: the checks of the flags, the connections, the targets and the adoption of a switch
--   made before, each stage a step of Prelude/Boot, a state of log lines and of the world that a
--   stop may end. Startup/Window is the liveness window that startup warns about. Serving is the
--   endpoints and the probes behind them, Serving/Requests their answers while the loop runs.
-- Webhook: pkg/notify/http.go. `notify` is `Notify` with its attempts, `post` one of them; the
--   transport, the clock and the end of the caller's context are arguments. Headers is
--   `ParseHeader` and `RedactURL` (pkg/notify/client.go) with the flags that feed them, Request the
--   headers of a request and `authSummary`, Texts the lines and the error of a delivery as text,
--   and Budget the worst case of a delivery (cmd/svchealthcheck/webhookflags.go), in 64-bit
--   arithmetic; Rounds is its loop as it is written, on fuel, of which one more than the retries is
--   enough.
-- Lambda: the alarm event (pkg/event) and its handler (pkg/switchhandler) over any actuator, with
--   the JSON decoder as an argument. Entry is cmd/switch-lambda, with Eksauth (pkg/eksauth) behind
--   it.
-- Probes: pkg/probes, the liveness probe by the heartbeat of the loop, and the readiness probe.
-- Prelude: bytes of texts, integers, dictionaries, sorted lists, Go's package `strings`, `%d`,
--   and the steps of code that may stop.
-- Obslog: pkg/obslog. Levels is obslog.go, with the levels of human.go and of
--   cmd/svchealthcheck/loglevel.go; Addresses is `ClusterLabel` and `AddressList`, Formats and
--   Events are `renderEvent`, with the formats of its events in a table, and Human is the handler
--   that writes the lines.
-- Metrics: pkg/metrics, the collectors and their registration.
-- Tls: what a connection trusts, `buildSecurityConfig` (cmd/svchealthcheck/tls.go) and
--   `NewClient` (pkg/notify/client.go).
-- Tests: concrete runs, at which the theorems are applied.
--
-- A text is the list of its bytes. A Go map is an association list with one entry for each key; a
-- map to true is a list read by membership. Times and durations are integers of nanoseconds. Errors
-- are constructors with the arguments of their format. What the world answers during a tick (the
-- probes of both clusters, the clock, the outcome of the two actuation paths) is the tick's input.
-- All loops are structural recursions over the list that the source ranges over, but for the
-- attempts of `Notify`, which recur on the number of attempts left, which starts at the number
-- allowed (Webhook), and the digits of a number, which recur on fuel one above the number: it has
-- fewer digits than that.
--
-- Not modelled: the HTTP server's own loop, the registry of metrics and its handler, the Lambda
-- runtime and the JSON texts of the report and of the webhook's payload, which are calls of
-- libraries. Outside of the model, as arguments, are the connections to Couchbase, the Kubernetes
-- and AWS APIs, reading files, PEM, `url.Parse`, `net.ParseIP`, base64 and what slog prints of a
-- value. Concurrency is that of one goroutine, but for Actuator/Shared; the endpoints read the
-- active prober by an atomic load.
pub mod Prelude
pub mod Svchealth
pub mod Failover
pub mod Actuator
pub mod Observer
pub mod Webhook
pub mod Lambda
pub mod Probes
pub mod Obslog
pub mod Tls
pub mod Metrics
mod Tests
