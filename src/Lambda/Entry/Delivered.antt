-- ===== src/Lambda/Entry/Delivered.antt =====
-- What a one-shot run of the lambda does to the cluster (cmd/switch-lambda/main.go).
use couchbase_health_observe.Prelude.{
  true, false, ◌≡◌, ◌≢◌, ap, sym, ◌∙◌, List, [], ◌∷◌, ◌++◌, none, Str, bytes, arith, inl, inr,
}
use couchbase_health_observe.Prelude.Boot.{passed, Checked-cases}
use couchbase_health_observe.Actuator.Types.{Ref, Config, has_ref}
use couchbase_health_observe.Actuator.Kube.{Kube, IsLawful, SameServer}
use couchbase_health_observe.Actuator.Refs.{parse_refs, parse_refs_required}
use couchbase_health_observe.Actuator.Refs.Parsing.{parse_refs-AreTargets}
use couchbase_health_observe.Actuator.Switch.{switch}
use couchbase_health_observe.Actuator.Switch.Reads.{on_secondary, stamped}
use couchbase_health_observe.Lambda.{Json, handle}
use couchbase_health_observe.Lambda.Delivery.{raises, deliver, handle-duplicate}
use couchbase_health_observe.Lambda.Entry.{
  Env, getenv, Clients, EntryLine, Served, handled, config_of, must_clientset, read_config,
  switch_lambda_ready, one_shot, entry,
}

-- The targets that the environment names.
abbrev pub default_namespace : Env → Str
default_namespace env = getenv env (bytes "NAMESPACE") (bytes "default")

abbrev pub listed_maps : Env → Str
listed_maps env = getenv env (bytes "CONFIGMAP") (bytes "cb-conn")

abbrev pub asked_config : Env → Config
asked_config env =
    config_of env (parse_refs_required (listed_maps env) (default_namespace env)).0
      (parse_refs (env (bytes "DEPLOYMENTS")) (default_namespace env)).0

module _ (K : Kube) (J : Json) (env : Env) (clients : Clients) (stamp : Str) where
  must_clientset-keeps :
      (s : List EntryLine × K.World) → (must_clientset K J env clients stamp s).1 ≡ s
  unfolding must_clientset
  must_clientset-keeps s = ground arith

  one_shot-handled :
      (cfg : Config) (s : List EntryLine × K.World)
      → let event = env (bytes "ONESHOT_EVENT") in
        (one_shot K J env clients stamp cfg s).0 ≡ passed handled
        → ((handle J (switch K cfg stamp) event s.1).0 ≡ none)
          × ((one_shot K J env clients stamp cfg s).1.1
              ≡ (handle J (switch K cfg stamp) event s.1).1)
  unfolding one_shot
  one_shot-handled cfg s e = (ground arith, ground arith)

  read_config-asked :
      (s : List EntryLine × K.World) (cfg : Config)
      → (read_config K J env clients stamp s).0 ≡ passed cfg
      → ((parse_refs_required (listed_maps env) (default_namespace env)).1 ≡ none)
        × (cfg ≡ asked_config env)
        × ((read_config K J env clients stamp s).1.1 ≡ s.1)
  unfolding read_config
  read_config-asked s cfg e = (ground arith, ground arith, ground arith)

  -- Where the process does not end by an error, it is the event that decides, on the cluster that
  -- the process was given and for the configuration of the environment.
  entry-one_shot :
      (s : List EntryLine × K.World) (served : Served)
      → (entry K J env clients stamp s).0 ≡ passed served
      → ((parse_refs_required (listed_maps env) (default_namespace env)).1 ≡ none)
        × (s' : List EntryLine × K.World) × (s'.1 ≡ s.1)
        × (entry K J env clients stamp s ≡ one_shot K J env clients stamp (asked_config env) s')
  unfolding entry
  entry-one_shot s served e =
      let s1 = (read_config K J env clients stamp s).1 in
      let kept = must_clientset-keeps s1 in
      elim (Checked-cases (read_config K J env clients stamp s).0) [
        | inr (x, bad) ↦ absurd (ground (arith, bad))
        | inl (cfg, read) ↦ elim (Checked-cases (must_clientset K J env clients stamp s1).0) [
          | inr (x, bad) ↦ absurd (ground (arith, bad, read))
          | inl (done, made) ↦
              let (quiet, same, world) = read_config-asked s cfg read in
              (
                quiet,
                (s1.0 ++ (switch_lambda_ready cfg ∷ []), s1.1),
                world,
                rw (sym same) (ground (arith, read, made, kept)),
              )
        ]
      ]

module _ (K : Kube) (L : IsLawful K) (J : Json) (env : Env) (clients : Clients) where
  -- Over an API that keeps its laws, a one-shot run that ends without an error, outside a dry run
  -- and of an event that raises the alarm: the environment names some ConfigMap, every ConfigMap that
  -- it names holds its secondary, every Deployment that it names carries the stamp, and the same
  -- event, delivered again, changes nothing on the server.
  pub entry-delivered :
      (s : List EntryLine × K.World) (stamp again : Str)
      → let cfg = asked_config env in
        let event = env (bytes "ONESHOT_EVENT") in
        let w' = (entry K J env clients stamp s).1.1 in
        (entry K J env clients stamp s).0 ≡ passed handled
        → cfg.dry_run ≡ false
        → raises J event ≡ true
        → (cfg.config_maps ≢ [])
          × ((r : Ref) → has_ref cfg.config_maps r ≡ true → on_secondary K cfg w' r ≡ true)
          × ((r : Ref) → has_ref cfg.deployments r ≡ true → stamped K cfg w' r ≡ true)
          × SameServer K (deliver K L cfg J event again w').1 w'
  unfolding config_of
  entry-delivered s stamp again e real alarm =
      let cfg = asked_config env in
      let event = env (bytes "ONESHOT_EVENT") in
      let (quiet, s', world, same) = entry-one_shot K J env clients stamp s handled e in
      let (done, moved) =
        one_shot-handled K J env clients stamp cfg s' (ap (λ r. r.0) (sym same) ∙ e) in
      let targets = (parse_refs-AreTargets (listed_maps env) (default_namespace env)).1 quiet in
      let twice = handle-duplicate K L cfg J event stamp again s'.1 real alarm done in
      rw (same, moved) (targets.0, twice.0, twice.1, twice.2)
