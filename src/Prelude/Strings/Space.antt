-- ===== src/Prelude/Strings/Space.antt =====
-- `TrimSpace` and `Fields`: the white space of Unicode, by its UTF-8 encodings.
use Prim.Native.Nat.{ℕ}
use mathlib.Core.Bool.{Bool, ◌&&◌, ◌||◌}
use mathlib.Core.List.{List, [], ◌∷◌, ◌++◌, reverse}
use couchbase_health_observe.Prelude.Tests.{◌==◌, leb, if◌then◌else◌}
use couchbase_health_observe.Prelude.Text.{Str}

-- Tab to carriage return, and the space.
unfoldable pub is_space : ℕ → Bool
is_space c = (leb 9 c && leb c 13) || c == 32

-- U+0085 and U+00A0.
unfoldable pub is_space2 : ℕ → ℕ → Bool
is_space2 c d = c == 0xC2 && (d == 0x85 || d == 0xA0)

-- U+1680, U+2000 to U+200A, U+2028, U+2029, U+202F, U+205F and U+3000.
unfoldable pub is_space3 : ℕ → ℕ → ℕ → Bool
is_space3 c d e =
    (c == 0xE1 && d == 0x9A && e == 0x80)
    || (c == 0xE2
        && d == 0x80
        && ((leb 0x80 e && leb e 0x8A) || e == 0xA8 || e == 0xA9 || e == 0xAF))
    || (c == 0xE2 && d == 0x81 && e == 0x9F)
    || (c == 0xE3 && d == 0x80 && e == 0x80)

unfoldable pub trim_left : Str → Str
trim_left [] = []
trim_left (c ∷ []) = if is_space c then [] else c ∷ []
trim_left (c ∷ d ∷ []) =
    let one = trim_left (d ∷ []) in
    if is_space c then one else if is_space2 c d then [] else c ∷ d ∷ []
trim_left (c ∷ d ∷ e ∷ s) =
    let one = trim_left (d ∷ e ∷ s) in
    let two = trim_left (e ∷ s) in
    let three = trim_left s in
    if is_space c
    then one
    else if is_space2 c d
    then two
    else if is_space3 c d e
    then three
    else c ∷ d ∷ e ∷ s

-- The same from the end, on the reversed bytes.
unfoldable pub trim_right_reversed : Str → Str
trim_right_reversed [] = []
trim_right_reversed (c ∷ []) = if is_space c then [] else c ∷ []
trim_right_reversed (d ∷ c ∷ []) =
    let one = trim_right_reversed (c ∷ []) in
    if is_space d then one else if is_space2 c d then [] else d ∷ c ∷ []
trim_right_reversed (e ∷ d ∷ c ∷ s) =
    let one = trim_right_reversed (d ∷ c ∷ s) in
    let two = trim_right_reversed (c ∷ s) in
    let three = trim_right_reversed s in
    if is_space e
    then one
    else if is_space2 d e
    then two
    else if is_space3 c d e
    then three
    else e ∷ d ∷ c ∷ s

unfoldable pub trim_space : Str → Str
unfolding trim_left trim_right_reversed is_space is_space2 is_space3
trim_space s = reverse (trim_right_reversed (reverse (trim_left s)))

abbrev flush : Str → List Str → List Str
flush [] words = words
flush (c ∷ word) words = (c ∷ word) ∷ words

-- The words of a text, the first of which goes on from `word`.
unfoldable pub fields_from : Str → Str → List Str
fields_from word [] = flush word []
fields_from word (c ∷ []) = if is_space c then flush word [] else flush (word ++ (c ∷ [])) []
fields_from word (c ∷ d ∷ []) =
    let ended = fields_from [] (d ∷ []) in
    let longer = fields_from (word ++ (c ∷ [])) (d ∷ []) in
    if is_space c then flush word ended else if is_space2 c d then flush word [] else longer
fields_from word (c ∷ d ∷ e ∷ s) =
    let ended = fields_from [] (d ∷ e ∷ s) in
    let ended2 = fields_from [] (e ∷ s) in
    let ended3 = fields_from [] s in
    let longer = fields_from (word ++ (c ∷ [])) (d ∷ e ∷ s) in
    if is_space c
    then flush word ended
    else if is_space2 c d
    then flush word ended2
    else if is_space3 c d e
    then flush word ended3
    else longer

-- `Fields`.
unfoldable pub fields : Str → List Str
unfolding fields_from is_space is_space2 is_space3
fields s = fields_from [] s
