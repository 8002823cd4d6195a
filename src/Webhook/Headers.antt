-- ===== src/Webhook/Headers.antt =====
-- The extra headers and the credentials of a delivery (pkg/notify/client.go and
-- cmd/svchealthcheck/webhookflags.go). The environment and `url.Parse` are arguments.
pub mod Forms
use couchbase_health_observe.Prelude.{
  ℕ, zero, suc, ◌+◌, Bool, true, false, not, ◌||◌, ◌&&◌, List, [], ◌∷◌, ◌++◌, Option, none, some,
  Str, bytes, is_nil, length, ◌==◌, if◌then◌else◌,
}
use couchbase_health_observe.Prelude.Strings.{cut_byte, split}
use couchbase_health_observe.Prelude.Strings.Space.{trim_space, fields}

pub record Header : Type 0 where
  pub key : Str
  pub value : Str

-- The errors by their format: only a word that cannot be part of a value is named.
pub data HeaderError : Type 0 where
  missing_separator : Str → HeaderError
  no_separator empty_key : HeaderError

pub data Parsed (A : Type 0) : Type 0 where
  parsed : A → Parsed A
  rejected : HeaderError → Parsed A

abbrev pub unseparated : List Str → HeaderError
unseparated [] = no_separator
unseparated (word ∷ []) = no_separator
unseparated (word ∷ next ∷ words) = missing_separator word

unfoldable pub parse_header : Str → Parsed Header
parse_header s = elim (cut_byte b':' s) [
  | none ↦ rejected (unseparated (fields s))
  | some (key, value) ↦
      if is_nil (trim_space key)
      then rejected empty_key
      else parsed (record { key = trim_space key; value = trim_space value })
]

-- What `url.Parse` gives of a URL, if it accepts it.
pub record Url : Type 0 where
  pub scheme : Str
  pub host : Str
  pub path : Str

unfoldable pub redact_url : (Str → Option Url) → Str → Str
redact_url url_parse raw = if is_nil raw then [] else elim (url_parse raw) [
  | none ↦ bytes "(unparsable url)"
  | some u ↦
      if is_nil u.host
      then bytes "(unparsable url)"
      else u.scheme ++ (bytes "://" ++ (u.host ++ u.path))
]

unfoldable pub resolve_cred : Str → Str → Str
resolve_cred flag_value env_value = if not (is_nil flag_value) then flag_value else env_value

-- The lines of the environment's value that are not blank.
unfoldable pub header_lines : List Str → List Str
header_lines [] = []
header_lines (line ∷ lines) =
    let rest = header_lines lines in if not (is_nil (trim_space line)) then line ∷ rest else rest

unfoldable pub parse_headers : List Header → List Str → Parsed (List Header)
parse_headers out [] = parsed out
parse_headers out (r ∷ raw) = elim (parse_header r) [
  | rejected e ↦ rejected e
  | parsed h ↦ parse_headers (out ++ (h ∷ [])) raw
]

unfoldable pub resolve_headers : List Str → Str → Parsed (List Header)
unfolding header_lines
resolve_headers flag_values env_value =
    parse_headers []
      (if length flag_values == 0 then header_lines (split b'\n' env_value) else flag_values)
