-- ===== src/Prelude/Strings.antt =====
-- What the program uses of Go's package `strings`, over bytes. An `Index` that is followed by
-- slices at the index is one of the cuts below: the text before, and the text after.
pub mod Space
pub mod Cuts
use mathlib.Core.Option
use mathlib.Core.Bool.{Bool, true, false, ◌||◌}
use mathlib.Core.Option.{Option, none, some}
use mathlib.Core.List.{List, [], ◌∷◌, ◌++◌}
use Prim.Native.Nat.{ℕ}
use couchbase_health_observe.Prelude.Tests.{◌==◌, if◌then◌else◌, is_some}
use couchbase_health_observe.Prelude.Text.{Str}

-- The rest of a text behind a prefix (`HasPrefix` and a slice).
unfoldable pub strip_prefix : Str → Str → Option Str
strip_prefix [] s = some s
strip_prefix (p ∷ ps) [] = none
strip_prefix (p ∷ ps) (c ∷ s) = if p == c then strip_prefix ps s else none

abbrev pub prepend : ℕ → Str × Str → Str × Str
prepend c (before, after) = (c ∷ before, after)

-- `Cut`, and `Index` with its slices, at the first occurrence of a separator that is not empty.
unfoldable pub cut : Str → Str → Option (Str × Str)
unfolding strip_prefix
cut sep [] = none
cut sep (c ∷ s) =
    let later = Option.map (prepend c) (cut sep s) in
    elim (strip_prefix sep (c ∷ s)) [ some rest ↦ some ([], rest) | none ↦ later ]

-- `Index` of a byte, with its slices.
unfoldable pub cut_byte : ℕ → Str → Option (Str × Str)
cut_byte b [] = none
cut_byte b (c ∷ s) =
    let later = Option.map (prepend c) (cut_byte b s) in if c == b then some ([], s) else later

-- `LastIndex` of a byte, with its slices.
unfoldable pub cut_last : ℕ → Str → Option (Str × Str)
cut_last b [] = none
cut_last b (c ∷ s) = elim (cut_last b s) [
  | some parts ↦ some (prepend c parts)
  | none ↦ if c == b then some ([], s) else none
]

unfoldable pub has_byte : ℕ → Str → Bool
has_byte b [] = false
has_byte b (c ∷ s) = c == b || has_byte b s

abbrev pub cons_head : ℕ → List Str → List Str
cons_head c [] = (c ∷ []) ∷ []
cons_head c (t ∷ ts) = (c ∷ t) ∷ ts

-- `Split` at a separator of one byte.
unfoldable pub split : ℕ → Str → List Str
split b [] = [] ∷ []
split b (c ∷ s) = let rest = split b s in if c == b then [] ∷ rest else cons_head c rest
