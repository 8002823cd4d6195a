-- ===== src/Actuator/Trace/Order.antt =====
-- The order of the calls of a switch, whoever else writes to the cluster (pkg/actuator/k8s.go).
use couchbase_health_observe.Prelude.{
  ℕ, Bool, true, false, not, ◌&&◌, ◌≡◌, ◌⊎◌, refl, List, [], ◌∷◌, Option, Str, str_eq, arith,
  Bool-cases, Option-cases, inl, inr, is_nil, if-intro,
}
use couchbase_health_observe.Prelude.Dict.{contains}
use couchbase_health_observe.Actuator.Types.{
  Ref, Config, ref_eq_iff, has_ref, Error, ann_switched_to,
}
use couchbase_health_observe.Actuator.Kube.{Deployment, get, Answer, ok, failed, Answer-cases, Kube}
use couchbase_health_observe.Actuator.Switch.{
  PatchLedger, empty_ledger, patch_config_maps, stamp_deployment, roll_found, roll_one,
  roll_deployments, switch,
}
use couchbase_health_observe.Actuator.Switch.Reads.{rolled_to}
use couchbase_health_observe.Actuator.Trace.{
  got_deployment, updated_deployment, Traced, traced, untold, IsProper, idle, after,
}
use couchbase_health_observe.Actuator.Trace.View.{IsView, switch-view}
use couchbase_health_observe.Actuator.Trace.Patches.{
  settled, patch_config_maps-settles, patch_config_maps-IsProper,
}

module _ (K : Kube) (cfg : Config) (led : PatchLedger) (stamp : Str) where
  -- A round of the roll phase makes no call in a failed namespace; else it gets, and may update.
  roll_one-calls :
      (ref : Ref) (acc : ℕ × List Error) (t : Traced K.World)
      → let calls' = (roll_one (traced K) cfg led stamp ref acc t).1.calls in
        (calls' ≡ t.calls)
        ⊎ ((a : Answer Deployment) × (calls' ≡ got_deployment ref a ∷ t.calls))
        ⊎ ((dep : Deployment) × (err : Option Str) × (contains led.failed_ns ref.namespace ≡ false)
            × (calls'
                ≡ updated_deployment ref (rolled_to cfg stamp dep) err
                  ∷ got_deployment ref (ok dep)
                  ∷ t.calls))
  unfolding roll_one roll_found stamp_deployment
  roll_one-calls ref (rolled, errs) t =
      let after_get = (K.get_deployment ref t.world).1 in
      elim (Bool-cases (contains led.failed_ns ref.namespace)) [
        | inl marked ↦ inl (ground arith)
        | inr free ↦ elim (Answer-cases (K.get_deployment ref t.world).0) [
          | inr (x, e) ↦ inr (inl (failed x, ground arith))
          | inl (dep, e) ↦
              elim (Bool-cases (
                not (contains led.patched_ns ref.namespace)
                && str_eq (get dep.annotations ann_switched_to) cfg.secondary)) [
                  | inl stays ↦ inr (inl (ok dep, ground arith))
                  | inr rolls ↦
                      let err = (K.update_deployment ref (rolled_to cfg stamp dep) after_get).0 in
                      inr (
                        inr (
                          dep,
                          err,
                          free,
                          elim (Option-cases err) [
                            | inl done ↦ ground arith
                            | inr (x, refused) ↦ ground arith
                          ],
                        ))
                ]
        ]
      ]

  abbrev AllSettled : Traced K.World → Type 0
  AllSettled t = (c : Ref) → has_ref cfg.config_maps c ≡ true → settled K cfg led t c ≡ true

  roll_one-AllSettled :
      (ref : Ref) (acc : ℕ × List Error) (t : Traced K.World)
      → AllSettled t
      → AllSettled (roll_one (traced K) cfg led stamp ref acc t).1
  roll_one-AllSettled ref acc t h c m = elim (roll_one-calls ref acc t) [
    | inl e ↦ rw e (h c m)
    | inr (inl (a, e)) ↦ rw e (ground (arith, h c m))
    | inr (inr (dep, err, free, e)) ↦ rw e (ground (arith, h c m))
  ]

  roll_one-IsProper :
      (ref : Ref) (acc : ℕ × List Error) (t : Traced K.World)
      → has_ref cfg.deployments ref ≡ true
      → cfg.dry_run ≡ false
      → AllSettled t
      → IsProper cfg stamp t.calls
      → IsProper cfg stamp (roll_one (traced K) cfg led stamp ref acc t).1.calls
  roll_one-IsProper ref acc t target real h p = elim (roll_one-calls ref acc t) [
    | inl e ↦ rw e p
    | inr (inl (a, e)) ↦ rw e (after p (target, real))
    | inr (inr (dep, err, free, e)) ↦ rw e (
        after (after p (target, real))
          (real, (dep, t.calls, refl, refl), λ c m same. ground (arith, same, h c m, free)))
  ]

  roll_deployments-IsProper :
      (refs : List Ref) (acc : ℕ × List Error) (t : Traced K.World)
      → ((r : Ref) → has_ref refs r ≡ true → has_ref cfg.deployments r ≡ true)
      → cfg.dry_run ≡ false
      → AllSettled t
      → IsProper cfg stamp t.calls
      → IsProper cfg stamp (roll_deployments (traced K) cfg led stamp refs acc t).1.calls
  unfolding roll_deployments has_ref
  roll_deployments-IsProper [] acc t sub real h p = p
  roll_deployments-IsProper (ref ∷ refs) acc t sub real h p =
      let (acc', t') = roll_one (traced K) cfg led stamp ref acc t in
      let target = sub ref (ground (arith, (ref_eq_iff ref ref).1 refl)) in
      roll_deployments-IsProper refs acc' t' (λ r m. sub r (ground arith)) real
        (roll_one-AllSettled ref acc t h) (roll_one-IsProper ref acc t target real h p)

traced-IsView : (K : Kube) → IsView (traced K) K (λ t. t.world)
traced-IsView K = record {
  get_config_map = λ r t. (refl, refl);
  update_config_map = λ r cm t. (refl, refl);
  get_deployment = λ r t. (refl, refl);
  update_deployment = λ r d t. (refl, refl);
}

calls-IsProper :
    (K : Kube) (cfg : Config) (stamp : Str) (w : K.World)
    → IsProper cfg stamp (switch (traced K) cfg stamp (untold w)).1.calls
unfolding switch
calls-IsProper K cfg stamp w =
    let (led, t1) = patch_config_maps (traced K) cfg cfg.config_maps empty_ledger (untold w) in
    let patches =
      patch_config_maps-IsProper K cfg stamp cfg.config_maps empty_ledger (untold w) (λ r m. m)
        idle in
    let Ends : (Bool × List Error) × Traced K.World → Type 0 =
      λ out. IsProper cfg stamp out.1.calls in
    if-intro Ends (is_nil cfg.config_maps) (λ nothing. idle)
      (λ some_target.
        if-intro Ends cfg.dry_run (λ dry. patches)
          (λ real.
            roll_deployments-IsProper K cfg led stamp cfg.deployments (0, []) t1 (λ r m. m) real
              (λ c m.
                patch_config_maps-settles K cfg cfg.config_maps empty_ledger (untold w) c real m)
              patches))

-- Over any API, whatever it answers and whoever else writes between the calls, the calls of a switch
-- are in order; a switch whose calls are noted has the result, and leaves the world, of one whose
-- calls are not. Only targets are read and written, and in a dry run nothing is written. A write
-- follows a read of its object at once, and writes what was read but for the switch's own keys. A
-- ConfigMap is written only where the read showed another connection, and a Deployment only after
-- every target ConfigMap of its namespace was read with the secondary or updated to it in this
-- switch.
pub switch-IsProper :
    (K : Kube) (cfg : Config) (stamp : Str) (w : K.World)
    → let (result, t) = switch (traced K) cfg stamp (untold w) in
      (result ≡ (switch K cfg stamp w).0)
      × (t.world ≡ (switch K cfg stamp w).1)
      × IsProper cfg stamp t.calls
switch-IsProper K cfg stamp w =
    let (result, world) =
      switch-view (traced K) K (λ t. t.world) (traced-IsView K) cfg stamp (untold w) in
    (result, world, calls-IsProper K cfg stamp w)
