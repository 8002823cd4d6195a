-- ===== src/Obslog/Levels.antt =====
-- Log levels (pkg/obslog/obslog.go, human.go and cmd/svchealthcheck/loglevel.go). A level is the
-- number that slog gives it.
use couchbase_health_observe.Prelude.{
  ℕ, ◌+◌, Bool, ◌||◌, ◌&&◌, ◌≡◌, ◌⊎◌, inl, inr, refl, [], ◌∷◌, Option, none, some, Str, bytes,
  str_eq, leb, ◌==◌, if◌then◌else◌, arith,
}
use couchbase_health_observe.Prelude.Int.{ℤ, pos, negsuc, leb_ℤ, ltb_ℤ}
use couchbase_health_observe.Prelude.Strings.Space.{trim_space}

abbrev pub level_trace : ℤ
level_trace = negsuc 7

abbrev pub level_debug : ℤ
level_debug = negsuc 3

abbrev pub level_info : ℤ
level_info = pos 0

abbrev pub level_warn : ℤ
level_warn = pos 4

abbrev pub level_error : ℤ
level_error = pos 8

abbrev lower : ℕ → ℕ
lower c = if leb b'A' c && leb c b'Z' then c + 32 else c

-- `ToLower` as far as it can make one of the words below: the letters of ASCII, and U+0130, whose
-- lower case is `i`. Any other letter's lower case lies outside of ASCII, or is a `k`.
unfoldable pub to_lower : Str → Str
to_lower [] = []
to_lower (c ∷ []) = lower c ∷ []
to_lower (c ∷ d ∷ s) =
    let one = to_lower (d ∷ s) in
    let two = to_lower s in if c == 0xC4 && d == 0xB0 then b'i' ∷ two else lower c ∷ one

-- The cases of the `switch`, on the trimmed word in lower case.
unfoldable pub level_of : Str → Option ℤ
level_of word =
    if str_eq word (bytes "trace")
    then some level_trace
    else if str_eq word (bytes "debug")
    then some level_debug
    else if str_eq word (bytes "info")
    then some level_info
    else if str_eq word (bytes "warn") || str_eq word (bytes "warning")
    then some level_warn
    else if str_eq word (bytes "error")
    then some level_error
    else none

-- The level, or none for the error.
unfoldable pub parse : Str → Option ℤ
unfolding to_lower level_of
parse s = level_of (to_lower (trim_space s))

unfoldable pub level_label : ℤ → Str
level_label l =
    if ltb_ℤ l level_debug
    then bytes "TRACE"
    else if ltb_ℤ l level_info
    then bytes "DEBUG"
    else if ltb_ℤ l level_warn
    then bytes "INFO"
    else if ltb_ℤ l level_error
    then bytes "WARN"
    else bytes "ERROR"

-- The text handler of `New`: how the value of the level's attribute is printed, where `printed` is
-- what slog prints.
unfoldable pub replace_level : (ℤ → Str) → ℤ → Str
replace_level printed l =
    if leb_ℤ l level_trace && leb_ℤ level_trace l then bytes "TRACE" else printed l

unfoldable pub health_level : Bool → ℤ
health_level changed = if changed then level_info else level_debug

-- A handler of a level writes a line of a level.
unfoldable pub enabled : ℤ → ℤ → Bool
enabled handler l = leb_ℤ handler l

level_of-cases :
    (word : Str) (l : ℤ)
    → level_of word ≡ some l
    → (l ≡ level_trace)
      ⊎ ((l ≡ level_debug) ⊎ ((l ≡ level_info) ⊎ ((l ≡ level_warn) ⊎ (l ≡ level_error))))
unfolding level_of
level_of-cases word l h = ground arith

-- Whatever text is accepted as a level, the label of that level is accepted as the same level: the
-- lines of a log name the level by which they are asked for.
parse-level_label : (s : Str) (l : ℤ) → parse s ≡ some l → parse (level_label l) ≡ some l
unfolding parse level_label trim_space str_eq
parse-level_label s l h = elim (level_of-cases (to_lower (trim_space s)) l h) [
  | inl e ↦ rw e refl
  | inr (inl e) ↦ rw e refl
  | inr (inr (inl e)) ↦ rw e refl
  | inr (inr (inr (inl e))) ↦ rw e refl
  | inr (inr (inr (inr e))) ↦ rw e refl
]
