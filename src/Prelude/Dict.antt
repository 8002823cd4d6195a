-- ===== src/Prelude/Dict.antt =====
-- Go maps with string keys, as association lists; only `lookup` is observable of a map.
use mathlib.Core.Path.{◌≡◌, refl}
use mathlib.Core.Bool.{Bool, true, false, ◌||◌}
use mathlib.Core.Option
use mathlib.Core.Option.{Option, none, some}
use mathlib.Core.List.{List, [], ◌∷◌}
use native.Mathlib.Omega.{arith}
use couchbase_health_observe.Prelude.Tests.{if◌then◌else◌, is_some, Bool-cases}
use mathlib.Core.Logic.{inl, inr}
use couchbase_health_observe.Prelude.Lists.{any_of}
use couchbase_health_observe.Prelude.Text.{Str, str_eq, str_eq_iff, str_eq_refl}

abbrev pub Dict {ℓ} : Type ℓ → Type ℓ
Dict V = List (Str × V)

unfoldable pub contains : List Str → Str → Bool
contains [] k = false
contains (j ∷ js) k = str_eq j k || contains js k

module _ {ℓ} {V : Type ℓ} where
  unfoldable pub lookup : Str → Dict V → Option V
  lookup k [] = none
  lookup k ((j, v) ∷ m) = if str_eq j k then some v else lookup k m

  unfoldable pub insert : Str → V → Dict V → Dict V
  insert k v [] = (k, v) ∷ []
  insert k v ((j, w) ∷ m) = if str_eq j k then (k, v) ∷ m else (j, w) ∷ insert k v m

  unfoldable pub keys : Dict V → List Str
  keys [] = []
  keys ((k, v) ∷ m) = k ∷ keys m

  pub lookup-insert :
      (k j : Str) (v : V) (m : Dict V)
      → lookup j (insert k v m) ≡ (if str_eq k j then some v else lookup j m)
  unfolding lookup insert
  lookup-insert k j v [] = refl
  lookup-insert k j v ((i, w) ∷ m) =
      ground (arith, str_eq_iff k j, str_eq_iff i k, str_eq_iff i j, lookup-insert k j v m)

  pub contains-keys : (m : Dict V) (k : Str) → contains (keys m) k ≡ is_some (lookup k m)
  unfolding contains keys lookup
  contains-keys [] k = refl
  contains-keys ((j, v) ∷ m) k = ground (arith, contains-keys m k)

module _ {ℓ κ} {V : Type ℓ} {W : Type κ} where
  unfoldable pub map_values : (V → W) → Dict V → Dict W
  map_values f [] = []
  map_values f ((k, v) ∷ m) = (k, f v) ∷ map_values f m

  pub lookup-map_values :
      (f : V → W) (k : Str) (m : Dict V) → lookup k (map_values f m) ≡ Option.map f (lookup k m)
  unfolding lookup map_values
  lookup-map_values f k [] = refl
  lookup-map_values f k ((j, v) ∷ m) = ground (arith, lookup-map_values f k m)

pub any_of-contains :
    (p : Str → Bool) (ks : List Str) (k : Str)
    → contains ks k ≡ true
    → p k ≡ true
    → any_of p ks ≡ true
unfolding contains
any_of-contains p [] k c h = cc
any_of-contains p (j ∷ js) k c h = ground (arith, str_eq_iff j k, any_of-contains p js k)

pub any_of-witness :
    (p : Str → Bool) (ks : List Str)
    → any_of p ks ≡ true
    → (k : Str) × (contains ks k ≡ true) × (p k ≡ true)
unfolding contains
any_of-witness p [] h = cc
any_of-witness p (j ∷ js) h = elim (Bool-cases (p j)) [
  | inl here ↦ (j, ground (arith, str_eq_refl j), here)
  | inr other ↦ let (k, c, e) = any_of-witness p js (ground arith) in (k, ground arith, e)
]
