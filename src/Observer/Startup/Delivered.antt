-- ===== src/Observer/Startup/Delivered.antt =====
-- The program from its start on: startup, and the runs of the loop after it
-- (cmd/svchealthcheck/main.go).
use couchbase_health_observe.Prelude.Boot.{passed}
use couchbase_health_observe.Prelude.{Option, true, false, ◌≡◌, ◌∙◌, ◌⊎◌, List, is_nil}
use couchbase_health_observe.Actuator.Kube.{Kube, IsLawful, SameServer}
use couchbase_health_observe.Observer.Switching.{Counters}
use couchbase_health_observe.Observer.System.{SystemConfig, Surroundings}
use couchbase_health_observe.Observer.System.Ticks.{AllSwitched, AllStamped, state, cluster}
use couchbase_health_observe.Observer.System.Delivered.{run-delivered}
use couchbase_health_observe.Observer.Startup.{
  Notifier, Flags, Outside, StartLine, looping, start_up,
}
use couchbase_health_observe.Observer.Startup.Adoption.{start_up-Adopts}

-- Over an API that keeps its laws, with the Kubernetes actuator on and outside a dry run: take a run
-- of the loop that startup let begin whose machine is latched, be it by a switch of its own or by one
-- that startup found. Startup wrote nothing to the cluster and had a ConfigMap to switch; every
-- target ConfigMap holds the secondary; and every target Deployment carries the secondary's stamp,
-- unless startup found the switch made.
pub start_up-delivered :
    (K : Kube) (L : IsLawful K) (f : Flags) (o : Outside) (s : List StartLine × K.World)
    (c : SystemConfig) (n : Option Notifier) (counters : Counters) (xs : List Surroundings)
    → let w = (start_up K f o s).1.1 in
      (start_up K f o s).0 ≡ passed (looping c n)
      → c.loop.actuators.k8s ≡ true
      → f.dry_run ≡ false
      → (state K c counters w xs).machine.switched ≡ true
      → SameServer K w s.1
        × (is_nil c.loop.config_maps ≡ false)
        × AllSwitched K c (cluster K c counters w xs)
        × ((c.loop.machine.already_switched ≡ true) ⊎ AllStamped K c (cluster K c counters w xs))
start_up-delivered K L f o s c n counters xs e k8s real latched =
    let (unwritten, adopted, some_target, dry) = start_up-Adopts K L f o s c n e in
    let (targets, stamps) =
      run-delivered K L c counters (start_up K f o s).1.1 xs k8s (dry ∙ real) adopted latched in
    (unwritten, some_target k8s, targets, stamps)
