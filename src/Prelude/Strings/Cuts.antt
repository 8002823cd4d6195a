-- ===== src/Prelude/Strings/Cuts.antt =====
-- What the cuts give back.
use couchbase_health_observe.Prelude.Text.{Str, join}
use couchbase_health_observe.Prelude.Lists.{All}
use couchbase_health_observe.Prelude.Strings.{
  strip_prefix, cut, cut_byte, cut_last, has_byte, split,
}
use Prim.Native.Nat.{ℕ}
use mathlib.Core.Path.{◌≡◌, refl, ap, ◌∙◌}
use mathlib.Core.Bool.{false, ◌||◌}
use mathlib.Core.Option.{none, some}
use mathlib.Core.List.{List, [], ◌∷◌, ◌++◌}
use native.Mathlib.Omega.{arith}

strip_prefix_self : (p s : Str) → strip_prefix p (p ++ s) ≡ some s
unfolding strip_prefix
strip_prefix_self [] s = refl
strip_prefix_self (c ∷ p) s = ground (arith, strip_prefix_self p s)

-- A separator that starts with a byte the text lacks is found right behind the text.
pub cut-append :
    (b : ℕ) (sep before after : Str)
    → has_byte b before ≡ false
    → cut (b ∷ sep) (before ++ ((b ∷ sep) ++ after)) ≡ some (before, after)
unfolding cut strip_prefix has_byte
cut-append b sep [] after h = ground (arith, strip_prefix_self sep after)
cut-append b sep (c ∷ before) after h = ground (arith, cut-append b sep before after)

pub cut-none : (b : ℕ) (sep s : Str) → has_byte b s ≡ false → cut (b ∷ sep) s ≡ none
unfolding cut strip_prefix has_byte
cut-none b sep [] h = refl
cut-none b sep (c ∷ s) h = ground (arith, cut-none b sep s)

pub cut_last-none : (b : ℕ) (s : Str) → has_byte b s ≡ false → cut_last b s ≡ none
unfolding cut_last has_byte
cut_last-none b [] h = refl
cut_last-none b (c ∷ s) h = ground (arith, cut_last-none b s)

pub cut_last-append :
    (b : ℕ) (before after : Str)
    → has_byte b after ≡ false
    → cut_last b (before ++ (b ∷ after)) ≡ some (before, after)
unfolding cut_last has_byte
cut_last-append b [] after h = ground (arith, cut_last-none b after)
cut_last-append b (c ∷ before) after h = ground (arith, cut_last-append b before after)

pub cut_byte-append :
    (b : ℕ) (before after : Str)
    → has_byte b before ≡ false
    → cut_byte b (before ++ (b ∷ after)) ≡ some (before, after)
unfolding cut_byte has_byte
cut_byte-append b [] after h = ground arith
cut_byte-append b (c ∷ before) after h = ground (arith, cut_byte-append b before after)

pub cut_byte-none : (b : ℕ) (s : Str) → has_byte b s ≡ false → cut_byte b s ≡ none
unfolding cut_byte has_byte
cut_byte-none b [] h = refl
cut_byte-none b (c ∷ s) h = ground (arith, cut_byte-none b s)

pub has_byte-append : (b : ℕ) (s t : Str) → has_byte b (s ++ t) ≡ (has_byte b s || has_byte b t)
unfolding has_byte
has_byte-append b [] t = refl
has_byte-append b (c ∷ s) t = ground (arith, has_byte-append b s t)

-- A found byte parts the text where it stands, and nothing before it is that byte.
pub cut_byte-parts :
    (b : ℕ) (s before after : Str)
    → cut_byte b s ≡ some (before, after)
    → (s ≡ before ++ (b ∷ after)) × (has_byte b before ≡ false)
unfolding cut_byte has_byte
cut_byte-parts b [] before after h = cc
cut_byte-parts b (c ∷ s) [] after h = ground (arith, cut_byte-parts b s [] after)
cut_byte-parts b (c ∷ s) (d ∷ before) after h = ground (arith, cut_byte-parts b s before after)

pub split-single : (b : ℕ) (s : Str) → has_byte b s ≡ false → split b s ≡ s ∷ []
unfolding split has_byte
split-single b [] h = refl
split-single b (c ∷ s) h = ground (arith, split-single b s)

pub split-cons :
    (b : ℕ) (s rest : Str) → has_byte b s ≡ false → split b (s ++ (b ∷ rest)) ≡ s ∷ split b rest
unfolding split has_byte
split-cons b [] rest h = ground arith
split-cons b (c ∷ s) rest h = ground (arith, split-cons b s rest)

-- Splitting undoes joining with the separator, where no part holds it.
pub split-join :
    (b : ℕ) (s : Str) (ss : List Str)
    → All (λ t. has_byte b t ≡ false) (s ∷ ss)
    → split b (join (b ∷ []) (s ∷ ss)) ≡ s ∷ ss
unfolding join
split-join b s [] h = split-single b s h.0
split-join b s (t ∷ ts) h =
    split-cons b s (join (b ∷ []) (t ∷ ts)) h.0 ∙ ap (λ us. s ∷ us) (split-join b t ts h.1)
