-- ===== src/Prelude/Ascending.antt =====
-- Strictly ascending lists of strings: two with the same members are equal, so a sorted list of
-- distinct names does not depend on the order in which they were collected.
use couchbase_health_observe.Prelude.Tests.{Bool-cases}
use mathlib.Core.Path.{◌≡◌, refl, ap}
use mathlib.Core.Bool.{true, false, ◌||◌}
use mathlib.Core.Logic.{inl, inr}
use mathlib.Core.List.{List, [], ◌∷◌}
use native.Mathlib.Omega.{arith}
use couchbase_health_observe.Prelude.Text.{Str, str_eq, str_eq_iff, str_eq_refl}
use couchbase_health_observe.Prelude.Dict.{Dict, contains, keys, insert, map_values}
use couchbase_health_observe.Prelude.Sort.{
  sort, insort, str_leb, str_leb_total, str_leb_trans, str_leb_antisymm, contains-sort,
}

abbrev pub Below : Str → List Str → Type 0
Below s [] = Unit
Below s (t ∷ ts) = (str_leb s t ≡ true) × (str_eq s t ≡ false) × Below s ts

abbrev pub Ascending : List Str → Type 0
Ascending [] = Unit
Ascending (s ∷ ss) = Below s ss × Ascending ss

abbrev pub Distinct : List Str → Type 0
Distinct [] = Unit
Distinct (s ∷ ss) = (contains ss s ≡ false) × Distinct ss

Below-trans : (s t : Str) (ts : List Str) → str_leb s t ≡ true → Below t ts → Below s ts
Below-trans s t [] h b = tt
Below-trans s t (u ∷ ts) h b = (
  str_leb_trans s t u h b.0,
  ground (arith, str_eq_iff s u, str_eq_iff t u, str_leb_antisymm t s),
  Below-trans s t ts h b.2,
)

insort-Below :
    (k s : Str) (ts : List Str)
    → str_leb k s ≡ true
    → str_eq k s ≡ false
    → Below k ts
    → Below k (insort s ts)
unfolding insort
insort-Below k s [] h e b = (h, e, tt)
insort-Below k s (t ∷ ts) h e b = elim (Bool-cases (str_leb s t)) [
  | inl first ↦ rw first (h, e, b)
  | inr later ↦ rw later (b.0, b.1, insort-Below k s ts h e b.2)
]

insort-Ascending :
    (s : Str) (ts : List Str) → contains ts s ≡ false → Ascending ts → Ascending (insort s ts)
unfolding insort contains
insort-Ascending s [] c a = (tt, tt)
insort-Ascending s (t ∷ ts) c a = elim (Bool-cases (str_leb s t)) [
  | inl first ↦
      rw first
        ((first, ground (arith, str_eq_iff s t, str_eq_iff t s), Below-trans s t ts first a.0), a)
  | inr later ↦ rw later (
    insort-Below t s ts (str_leb_total s t later) (ground arith) a.0,
    insort-Ascending s ts (ground arith) a.1,
  )
]

pub sort-Ascending : (ss : List Str) → Distinct ss → Ascending (sort ss)
unfolding sort
sort-Ascending [] d = tt
sort-Ascending (s ∷ ss) d =
    insort-Ascending s (sort ss) (ground (arith, contains-sort ss s)) (sort-Ascending ss d.1)

Below-contains :
    (s k : Str) (ts : List Str)
    → Below s ts
    → contains ts k ≡ true
    → (str_leb s k ≡ true) × (str_eq s k ≡ false)
unfolding contains
Below-contains s k [] b c = cc
Below-contains s k (t ∷ ts) b c = ground (arith, str_eq_iff t k, Below-contains s k ts b.2)

Below-not_contains : (s : Str) (ts : List Str) → Below s ts → contains ts s ≡ false
Below-not_contains s ts b = ground (arith, Below-contains s s ts b, str_eq_refl s)

heads-eq :
    (s t : Str) (ss ts : List Str)
    → Below s ss
    → Below t ts
    → contains (t ∷ ts) s ≡ true
    → contains (s ∷ ss) t ≡ true
    → s ≡ t
unfolding contains
heads-eq s t ss ts b d c e = ground (
  arith,
  str_eq_iff s t,
  str_eq_iff t s,
  Below-contains s t ss b,
  Below-contains t s ts d,
  str_leb_antisymm s t,
)

abbrev SameMembers : List Str → List Str → Type 0
SameMembers ss ts = (k : Str) → contains ss k ≡ contains ts k

pub Ascending-ext : (ss ts : List Str) → Ascending ss → Ascending ts → SameMembers ss ts → ss ≡ ts
unfolding contains
Ascending-ext [] [] a b h = refl
Ascending-ext [] (t ∷ ts) a b h = ground (arith, h t, str_eq_refl t)
Ascending-ext (s ∷ ss) [] a b h = ground (arith, h s, str_eq_refl s)
Ascending-ext (s ∷ ss) (t ∷ ts) a b h =
    let same : s ≡ t =
      heads-eq s t ss ts a.0 b.0 (ground (arith, h s, str_eq_refl s))
        (ground (arith, h t, str_eq_refl t)) in
    let tails : SameMembers ss ts = λ k. ground (
      arith,
      h k,
      str_eq_iff s k,
      str_eq_iff t k,
      Below-not_contains s ss a.0,
      Below-not_contains t ts b.0,
    ) in
    ground (arith, Ascending-ext ss ts a.1 b.1 tails)

module _ {ℓ} {V : Type ℓ} where
  keys-insert :
      (k j : Str) (v : V) (m : Dict V)
      → contains (keys (insert k v m)) j ≡ (str_eq k j || contains (keys m) j)
  unfolding keys insert contains
  keys-insert k j v [] = refl
  keys-insert k j v ((i, w) ∷ m) = ground (arith, str_eq_iff i k, keys-insert k j v m)

  pub insert-Distinct :
      (k : Str) (v : V) (m : Dict V) → Distinct (keys m) → Distinct (keys (insert k v m))
  unfolding keys insert contains
  insert-Distinct k v [] d = ground arith
  insert-Distinct k v ((i, w) ∷ m) d =
      ground (arith, str_eq_iff i k, str_eq_iff k i, keys-insert k i v m, insert-Distinct k v m d.1)

pub keys-map_values {ℓ κ} :
    {V : Type ℓ} {W : Type κ} (f : V → W) (m : Dict V) → keys (map_values f m) ≡ keys m
unfolding keys map_values
keys-map_values f [] = refl
keys-map_values f ((k, v) ∷ m) = ap (λ ks. k ∷ ks) (keys-map_values f m)
