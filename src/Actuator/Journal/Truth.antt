-- ===== src/Actuator/Journal/Truth.antt =====
-- What each line of a switch tells of the cluster (pkg/actuator/k8s.go).
use couchbase_health_observe.Prelude.{
  ℕ, ◌+◌, Bool, true, false, ◌≡◌, ◌⊎◌, inl, inr, List, [], ◌∷◌, ◌++◌, some, Str, str_eq, arith,
  any_of, All, All-append,
}
use couchbase_health_observe.Prelude.Dict.{contains}
use couchbase_health_observe.Actuator.Types.{
  Ref, ref_eq, Config, Error, get_config_map_failed, update_config_map_failed,
}
use couchbase_health_observe.Actuator.Kube.{Answer-cases, Kube, IsLawful}
use couchbase_health_observe.Actuator.Switch.{
  PatchLedger, repoint, patch_found, patch_one, patch_config_maps,
}
use couchbase_health_observe.Actuator.Switch.Reads.{on_secondary, stamped, pointed, pointed-holds}
use couchbase_health_observe.Actuator.Switch.Frame.{value_in}
use couchbase_health_observe.Actuator.Switch.Patch.{patch_one-keeps, patch_config_maps-keeps}
use couchbase_health_observe.Actuator.Journal.{
  ActuatorLine, configmap_patch, roll_skipped, deployment_roll, roll_only, patch_one_lines,
  repoint_lines, patch_lines,
}
use couchbase_health_observe.Actuator.Journal.Reads.{any_of-append}
use couchbase_health_observe.Actuator.Journal.Patched.{patch_one-writes}

-- An error names a ConfigMap of the namespace.
abbrev pub strands : Str → Error → Bool
strands ns (get_config_map_failed ref e) = str_eq ref.namespace ns
strands ns (update_config_map_failed ref e) = str_eq ref.namespace ns
strands ns _ = false

-- An error names the ConfigMap as one that could not be read.
abbrev pub unreadable : Ref → Error → Bool
unreadable c (get_config_map_failed ref e) = ref_eq ref c
unreadable c _ = false

-- How many lines tell of a roll.
unfoldable pub rolls_of : List ActuatorLine → ℕ
rolls_of [] = 0
rolls_of (deployment_roll d ∷ ls) = 1 + rolls_of ls
rolls_of (l ∷ ls) = rolls_of ls

pub rolls_of-append : (xs ys : List ActuatorLine) → rolls_of (xs ++ ys) ≡ rolls_of xs + rolls_of ys
unfolding rolls_of
rolls_of-append [] ys = ground arith
rolls_of-append (x ∷ xs) ys = ground (arith, rolls_of-append xs ys)

pub All-map {ℓ κ μ} :
    {A : Type ℓ} (P : A → Type κ) (Q : A → Type μ) (xs : List A)
    → ((x : A) → P x → Q x)
    → All P xs
    → All Q xs
All-map P Q [] f h = record {}
All-map P Q (x ∷ xs) f (p, ps) = (f x p, All-map P Q xs f ps)

module _ (K : Kube) (cfg : Config) where
  -- What the line of a patch tells, between two states of the cluster.
  abbrev pub Repointed : K.World → K.World → Ref → Str → Str → Str → Type 0
  Repointed w w' c key from to =
      (key ≡ cfg.config_key)
      × (to ≡ cfg.secondary)
      × (on_secondary K cfg w c ≡ false)
      × (value_in (K.config_map w c) cfg.config_key ≡ some from)
      × (on_secondary K cfg w' c ≡ true)

  abbrev pub PatchTrue : K.World → K.World → ActuatorLine → Type 0
  PatchTrue w w' (configmap_patch c key from to) = Repointed w w' c key from to
  PatchTrue w w' _ = ⊥

  abbrev pub RollTrue : PatchLedger → K.World → ActuatorLine → Type 0
  RollTrue led w' (deployment_roll d) = stamped K cfg w' d ≡ true
  RollTrue led w' (roll_skipped d) = contains led.failed_ns d.namespace ≡ true
  RollTrue led w' _ = ⊥

module _ (K : Kube) (L : IsLawful K) (cfg : Config) where
  -- Every ConfigMap is as it was, or on the secondary.
  abbrev pub Advanced : K.World → K.World → Type 0
  Advanced w0 w =
      (c : Ref) → (K.config_map w c ≡ K.config_map w0 c) ⊎ (on_secondary K cfg w c ≡ true)

  patch_one-Advanced :
      (ref : Ref) (led : PatchLedger) (w0 w : K.World)
      → Advanced w0 w
      → Advanced w0 (patch_one K cfg ref led w).1
  patch_one-Advanced ref led w0 w h c =
      ground (arith, h c, patch_one-writes K L cfg ref led w c, patch_one-keeps K L cfg ref led w c)

  patch_one_lines-PatchTrue :
      (ref : Ref) (led : PatchLedger) (w0 w : K.World)
      → Advanced w0 w
      → All (PatchTrue K cfg w0 (patch_one K cfg ref led w).1) (patch_one_lines K cfg ref w)
  unfolding patch_one patch_found repoint patch_one_lines repoint_lines
  patch_one_lines-PatchTrue ref led w0 w h =
      let after = (K.get_config_map ref w).1 in
      elim (Answer-cases (K.get_config_map ref w).0) [
        | inl (cm, e) ↦ ground (
          arith,
          h ref,
          L.get_config_map_ok ref w cm,
          L.update_config_map_ok ref (pointed cfg cm) after,
          pointed-holds cfg cm,
        )
        | inr (x, e) ↦ ground arith
      ]

  pub patch_lines-PatchTrue :
      (refs : List Ref) (led : PatchLedger) (w0 w : K.World)
      → Advanced w0 w
      → All
          (PatchTrue K cfg w0 (patch_config_maps K cfg refs led w).1)
          (patch_lines K cfg refs led w)
  unfolding patch_config_maps patch_lines
  patch_lines-PatchTrue [] led w0 w h = record {}
  patch_lines-PatchTrue (ref ∷ refs) led w0 w h =
      let (led', w') = patch_one K cfg ref led w in
      let wf = (patch_config_maps K cfg refs led' w').1 in
      All-append (PatchTrue K cfg w0 wf) (patch_one_lines K cfg ref w)
        (patch_lines K cfg refs led' w')
        (All-map (PatchTrue K cfg w0 w') (PatchTrue K cfg w0 wf) (patch_one_lines K cfg ref w)
          (λ l p. later l p) (patch_one_lines-PatchTrue ref led w0 w h))
        (patch_lines-PatchTrue refs led' w0 w' (patch_one-Advanced ref led w0 w h))
    where
      later :
          (l : ActuatorLine)
          → PatchTrue K cfg w0 (patch_one K cfg ref led w).1 l
          → PatchTrue K cfg w0 (patch_config_maps K cfg (ref ∷ refs) led w).1 l
      later (configmap_patch c key from to) (k, t, off, was, now) = (
        k,
        t,
        off,
        was,
        patch_config_maps-keeps K L cfg refs (patch_one K cfg ref led w).0
            (patch_one K cfg ref led w).1 c now,
      )
      later (roll_skipped d) p = absurd p
      later (deployment_roll d) p = absurd p
      later (roll_only n sec) p = absurd p

  -- The marked namespaces are those of the errors.
  patch_one-strands :
      (ref : Ref) (led : PatchLedger) (w : K.World) (ns : Str)
      → contains led.failed_ns ns ≡ any_of (strands ns) led.errs
      → let led' = (patch_one K cfg ref led w).0 in
        contains led'.failed_ns ns ≡ any_of (strands ns) led'.errs
  unfolding patch_one patch_found repoint contains
  patch_one-strands ref led w ns h = grind (arith, any_of-append)

  pub patch_config_maps-strands :
      (refs : List Ref) (led : PatchLedger) (w : K.World) (ns : Str)
      → contains led.failed_ns ns ≡ any_of (strands ns) led.errs
      → let led' = (patch_config_maps K cfg refs led w).0 in
        contains led'.failed_ns ns ≡ any_of (strands ns) led'.errs
  unfolding patch_config_maps
  patch_config_maps-strands [] led w ns h = h
  patch_config_maps-strands (ref ∷ refs) led w ns h =
      let (led', w') = patch_one K cfg ref led w in
      patch_config_maps-strands refs led' w' ns (patch_one-strands ref led w ns h)
