-- ===== src/Prelude/Sort.antt =====
-- `sort.Strings`: bytewise lexicographic order, sorted by insertion.
use Prim.Native.Nat.{suc}
use mathlib.Core.Path.{◌≡◌, refl}
use mathlib.Core.Bool.{Bool, true, false, ◌&&◌, ◌||◌}
use mathlib.Core.List.{List, [], ◌∷◌}
use native.Mathlib.Omega.{arith}
use couchbase_health_observe.Prelude.Tests.{if◌then◌else◌, ltb, ◌==◌}
use couchbase_health_observe.Prelude.Lists.{length}
use couchbase_health_observe.Prelude.Text.{Str, str_eq}
use couchbase_health_observe.Prelude.Dict.{contains}

unfoldable pub str_leb : Str → Str → Bool
str_leb [] t = true
str_leb (c ∷ s) [] = false
str_leb (c ∷ s) (d ∷ t) = ltb c d || ((c == d) && str_leb s t)

unfoldable pub insort : Str → List Str → List Str
insort s [] = s ∷ []
insort s (t ∷ ts) = if str_leb s t then s ∷ t ∷ ts else t ∷ insort s ts

unfoldable pub sort : List Str → List Str
unfolding insort
sort [] = []
sort (s ∷ ss) = insort s (sort ss)

pub str_leb_total : (s t : Str) → str_leb s t ≡ false → str_leb t s ≡ true
unfolding str_leb
str_leb_total [] t h = cc
str_leb_total (c ∷ s) [] h = refl
str_leb_total (c ∷ s) (d ∷ t) h = ground (arith, str_leb_total s t)

pub str_leb_antisymm : (s t : Str) → str_leb s t ≡ true → str_leb t s ≡ true → s ≡ t
unfolding str_leb
str_leb_antisymm [] [] h k = refl
str_leb_antisymm [] (d ∷ t) h k = cc
str_leb_antisymm (c ∷ s) [] h k = cc
str_leb_antisymm (c ∷ s) (d ∷ t) h k = ground (arith, str_leb_antisymm s t)

pub str_leb_trans : (s t u : Str) → str_leb s t ≡ true → str_leb t u ≡ true → str_leb s u ≡ true
unfolding str_leb
str_leb_trans [] t u h k = refl
str_leb_trans (c ∷ s) [] u h k = cc
str_leb_trans (c ∷ s) (d ∷ t) [] h k = cc
str_leb_trans (c ∷ s) (d ∷ t) (e ∷ u) h k = ground (arith, str_leb_trans s t u)

pub contains-insort :
    (s k : Str) (ts : List Str) → contains (insort s ts) k ≡ (str_eq s k || contains ts k)
unfolding contains insort
contains-insort s k [] = refl
contains-insort s k (t ∷ ts) = ground (arith, contains-insort s k ts)

pub contains-sort : (ss : List Str) (k : Str) → contains (sort ss) k ≡ contains ss k
unfolding contains sort
contains-sort [] k = refl
contains-sort (s ∷ ss) k = ground (arith, contains-insort s k (sort ss), contains-sort ss k)

pub length-insort : (s : Str) (ts : List Str) → length (insort s ts) ≡ suc (length ts)
unfolding insort
length-insort s [] = refl
length-insort s (t ∷ ts) = ground (arith, length-insort s ts)

pub length-sort : (ss : List Str) → length (sort ss) ≡ length ss
unfolding sort
length-sort [] = refl
length-sort (s ∷ ss) = ground (arith, length-insort s (sort ss), length-sort ss)

-- Two insertions commute, so the result of `sort` does not depend on the order of its input.
pub insort_comm : (s t : Str) (us : List Str) → insort s (insort t us) ≡ insort t (insort s us)
unfolding insort
insort_comm s t [] = ground (arith, str_leb_total s t, str_leb_antisymm s t)
insort_comm s t (u ∷ us) = ground (
  arith,
  str_leb_total s t,
  str_leb_antisymm s t,
  str_leb_trans s t u,
  str_leb_trans t s u,
  insort_comm s t us,
)
