-- ===== src/Webhook/Headers/Forms.antt =====
-- Which headers are accepted, and what they become (pkg/notify/client.go, webhookflags.go).
use couchbase_health_observe.Prelude.{
  false, ◌≡◌, refl, sym, ap, List, [], ◌∷◌, ◌++◌, Str, is_nil, if◌then◌else◌, arith, map,
}
use mathlib.Core.List.{append-nil, append_assoc}
use couchbase_health_observe.Prelude.Strings.{has_byte}
use couchbase_health_observe.Prelude.Strings.Cuts.{cut_byte-append, cut_byte-none}
use couchbase_health_observe.Prelude.Strings.Space.{trim_space, trim_left, is_space, fields}
use couchbase_health_observe.Webhook.Headers.{
  Header, empty_key, unseparated, parsed, rejected, parse_header, parse_headers, resolve_headers,
}

-- The first colon splits: a value may hold further ones. A header is accepted exactly if there is
-- a colon and what stands before it is not blank, and its key and value are what stands before and
-- after, trimmed.
parse_header-split :
    (before after : Str)
    → has_byte b':' before ≡ false
    → (parse_header (before ++ (b':' ∷ after)) ≡ (
        if is_nil (trim_space before)
        then rejected empty_key
        else parsed (record { key = trim_space before; value = trim_space after })))
      × (parse_header before ≡ rejected (unseparated (fields before)))
unfolding parse_header
parse_header-split before after plain =
    ground (arith, cut_byte-append b':' before after plain, cut_byte-none b':' before plain)

trim_space-space : (s : Str) → trim_space (b' ' ∷ s) ≡ trim_space s
unfolding trim_space trim_left is_space
trim_space-space [] = refl
trim_space-space (c ∷ []) = refl
trim_space-space (c ∷ d ∷ s) = refl

-- A header as `Key: Value`.
abbrev written : Header → Str
written h = h.key ++ (b':' ∷ b' ' ∷ h.value)

-- A header that can be written so: a key without a colon that is not empty, and no white space at
-- the ends of either part.
record IsPlain (h : Header) : Type 0 where
  some_key : is_nil h.key ≡ false
  plain_key : has_byte b':' h.key ≡ false
  trimmed_key : trim_space h.key ≡ h.key
  trimmed_value : trim_space h.value ≡ h.value

parse_header-written : (h : Header) → IsPlain h → parse_header (written h) ≡ parsed h
parse_header-written h p = ground (
  arith,
  (parse_header-split h.key (b' ' ∷ h.value) p.plain_key).0,
  trim_space-space h.value,
  p.trimmed_key,
  p.trimmed_value,
  p.some_key,
)

abbrev ArePlain : List Header → Type 0
ArePlain [] = Unit
ArePlain (h ∷ hs) = IsPlain h × ArePlain hs

parse_headers-written :
    (out hs : List Header) → ArePlain hs → parse_headers out (map written hs) ≡ parsed (out ++ hs)
unfolding parse_headers
parse_headers-written out [] p = ap parsed (sym (append-nil out))
parse_headers-written out (h ∷ hs) p = ground (
  arith,
  parse_header-written h p.0,
  parse_headers-written (out ++ (h ∷ [])) hs p.1,
  append_assoc out (h ∷ []) hs,
)

-- Headers written as `Key: Value` in the flags are read back, whatever the environment holds.
resolve_headers-written :
    (h : Header) (hs : List Header) (env_value : Str)
    → IsPlain h
    → ArePlain hs
    → resolve_headers (map written (h ∷ hs)) env_value ≡ parsed (h ∷ hs)
unfolding resolve_headers
resolve_headers-written h hs env_value p q =
    ground (arith, parse_headers-written [] (h ∷ hs) (p, q))
