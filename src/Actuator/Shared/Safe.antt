-- ===== src/Actuator/Shared/Safe.antt =====
-- What holds on the cluster however the calls of the switches interleave (pkg/actuator/k8s.go).
use couchbase_health_observe.Prelude.{
  ℕ, true, false, ◌≡◌, ◌⊎◌, refl, List, [], ◌∷◌, ◌++◌, Option, Str, Bool-cases, inl, inr, arith,
  ◌∙◌, ap, sym,
}
use couchbase_health_observe.Actuator.Types.{Ref, Config, ref_eq, ref_eq_iff, has_ref}
use couchbase_health_observe.Actuator.Kube.{ConfigMap, Deployment, ok, failed}
use couchbase_health_observe.Actuator.Switch.Reads.{pointed, pointed-holds}
use couchbase_health_observe.Actuator.Trace.{
  Call, updated_config_map, updated_deployment, reached, Allowed, IsProper, after,
}
use couchbase_health_observe.Actuator.Trace.Order.{switch-IsProper}
use couchbase_health_observe.Actuator.Shared.{
  Team, Shared, config_of, noting, Made, Writes, Step, reads_config_map, writes_config_map,
  reads_deployment, writes_deployment, Reach, begun, stepped, shows_secondary,
}

IsProper-call :
    (cfg : Config) (stamp : Str) (later older : List Call) (call : Call)
    → IsProper cfg stamp (later ++ (call ∷ older))
    → Allowed cfg stamp call older
IsProper-call cfg stamp [] older call (after p a) = a
IsProper-call cfg stamp (l ∷ later) older call (after p a) =
    IsProper-call cfg stamp later older call p

-- What a switch calls next is allowed after its calls so far.
Made-Allowed :
    (t : Team) (i : ℕ) (call : Call) (older : List Call)
    → Made t i (call ∷ older)
    → Allowed (config_of t i) (t.writer i).stamp call older
Made-Allowed t i call older (K, w, later, e) =
    let proper = (switch-IsProper K (config_of t i) (t.writer i).stamp w).2 in
    IsProper-call (config_of t i) (t.writer i).stamp later older call (rw e at proper)

module _ (t : Team) where
  -- What a switch saw or put on the secondary is there.
  Kept : Shared → Type 0
  Kept s =
      (j : ℕ) (c : Ref)
      → reached (config_of t j) (s.calls j) c ≡ true
      → shows_secondary t (s.config_map c) ≡ true

  -- A written ConfigMap is on the secondary, or as it was.
  write-shows :
      (r c : Ref) (old : ConfigMap) (err : Option Str) (i : ℕ) (before now : Ref → Option ConfigMap)
      → Writes r (pointed (config_of t i) old) err before now
      → (now c ≡ before c) ⊎ (shows_secondary t (now c) ≡ true)
  write-shows r c old err i before now (here, others) = elim (Bool-cases (ref_eq r c)) [
    | inl same ↦ ground (arith, ref_eq_iff r c, here, pointed-holds (config_of t i) old)
    | inr apart ↦ inl (others c apart)
  ]

  -- No step takes a ConfigMap off the secondary, or changes one but to put it there.
  Step-shows :
      {s s' : Shared} (c : Ref)
      → Step t s s'
      → (s'.config_map c ≡ s.config_map c) ⊎ (shows_secondary t (s'.config_map c) ≡ true)
  Step-shows c (reads_config_map i r a made shown) = inl refl
  Step-shows {s = s} c (writes_config_map i r cm err now made (here, others)) =
      let (real, (old, earlier, e, off, same)) =
        Made-Allowed t i (updated_config_map r cm err) (s.calls i) made in
      write-shows r c old err i s.config_map now (rw same at here, others)
  Step-shows c (reads_deployment i r a made shown) = inl refl
  Step-shows c (writes_deployment i r d err now made written) = inl refl

  Step-Kept : {s s' : Shared} → Kept s → Step t s s' → Kept s'
  unfolding Kept
  Step-Kept {s = s} k (reads_config_map i r (ok cm) made shown) =
      λ j c h. ground (arith, k j c, ref_eq_iff r c, shown, h)
  Step-Kept {s = s} k (reads_config_map i r (failed e) made shown) =
      λ j c h. ground (arith, k j c, h)
  Step-Kept {s = s} k (writes_config_map i r cm err now made (here, others)) =
      let s' = record (noting i (updated_config_map r cm err) s) { config_map = now } in
      let step : Step t s s' = writes_config_map i r cm err now made (here, others) in
      λ j c h. ground (arith, k j c, ref_eq_iff r c, Step-shows {s = s} {s' = s'} c step, here, h)
  Step-Kept {s = s} k (reads_deployment i r a made shown) = λ j c h. ground (arith, k j c, h)
  Step-Kept {s = s} k (writes_deployment i r d err now made written) =
      λ j c h. ground (arith, k j c, h)

  -- A switch outside a dry run, all of whose ConfigMaps in a namespace are on the secondary.
  abbrev pub Guards : ℕ → Shared → Str → Type 0
  Guards i s ns =
      ((t.writer i).dry_run ≡ false)
      × ((c : Ref)
          → has_ref (t.writer i).config_maps c ≡ true
          → c.namespace ≡ ns
          → shows_secondary t (s.config_map c) ≡ true)

  Step-Guards : {s s' : Shared} (i : ℕ) (ns : Str) → Step t s s' → Guards i s ns → Guards i s' ns
  Step-Guards {s = s} {s' = s'} i ns step (real, held) =
      (real, λ c m same. ground (arith, Step-shows {s = s} {s' = s'} c step, held c m same))

  -- A step leaves a Deployment alone, or is that of a switch that has its ConfigMaps in place.
  Step-rolls :
      {s s' : Shared} (d : Ref)
      → Kept s
      → Step t s s'
      → (s'.deployment d ≡ s.deployment d) ⊎ ((i : ℕ) × Guards i s' d.namespace)
  unfolding Kept
  Step-rolls d k (reads_config_map i r a made shown) = inl refl
  Step-rolls d k (writes_config_map i r cm err now made written) = inl refl
  Step-rolls d k (reads_deployment i r a made shown) = inl refl
  Step-rolls {s = s} d k (writes_deployment i r dep err now made (here, others)) =
      let (real, read, guarded) =
        Made-Allowed t i (updated_deployment r dep err) (s.calls i) made in
      elim (Bool-cases (ref_eq r d)) [
        | inr apart ↦ inl (others d apart)
        | inl same ↦
            let e : r ≡ d = (ref_eq_iff r d).0 same in
            inr (i, (real, λ c m ns. k i c (guarded c m (ns ∙ ap (λ x. x.namespace) (sym e)))))
      ]

module _ (t : Team) (cms : Ref → Option ConfigMap) (deps : Ref → Option Deployment) where
  Reach-Kept : {s : Shared} → Reach t cms deps s → Kept t s
  unfolding Kept
  Reach-Kept begun = λ j c h. ground (arith, h)
  Reach-Kept (stepped r step) = Step-Kept t (Reach-Kept r) step

  -- However the calls of any number of switches to one secondary under one key interleave, and
  -- whatever of them fails, with no other writer to the cluster: a ConfigMap is as it was in the
  -- beginning, or is on the secondary; and a Deployment is as it was, or one of the switches that is
  -- no dry run has every target ConfigMap of the namespace of the Deployment on the secondary.
  pub shared-guarded :
      (s : Shared)
      → Reach t cms deps s
      → ((c : Ref) → (s.config_map c ≡ cms c) ⊎ (shows_secondary t (s.config_map c) ≡ true))
        × ((d : Ref) → (s.deployment d ≡ deps d) ⊎ ((i : ℕ) × Guards t i s d.namespace))
  shared-guarded s begun = (λ c. inl refl, λ d. inl refl)
  shared-guarded s' (stepped {s = s} r step) =
      let (maps, rolls) = shared-guarded s r in
      (
        λ c. ground (arith, maps c, Step-shows t {s = s} {s' = s'} c step),
        λ d. elim (Step-rolls t {s = s} {s' = s'} d (Reach-Kept r) step) [
          | inr guarded ↦ inr guarded
          | inl same ↦ elim (rolls d) [
            | inl old ↦ inl (same ∙ old)
            | inr (i, g) ↦ inr (i, Step-Guards t {s = s} {s' = s'} i d.namespace step g)
          ]
        ],
      )
