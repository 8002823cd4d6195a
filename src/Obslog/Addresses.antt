-- ===== src/Obslog/Addresses.antt =====
-- Labels and address lists of connection strings (pkg/obslog/human.go). Whether `net.ParseIP`
-- accepts a text is an argument.
pub mod Forms
use couchbase_health_observe.Prelude.{
  ℕ, Bool, true, false, not, ◌||◌, List, [], ◌∷◌, ◌++◌, Option, none, some, Str, bytes, str_eq,
  is_nil, join, map, ◌==◌, if◌then◌else◌, any_of,
}
use couchbase_health_observe.Prelude.Strings.{cut, cut_byte, cut_last, split}
use couchbase_health_observe.Prelude.Strings.Space.{trim_space}

-- `h[i+3:]` at the index of the scheme's end, and `h` where there is none.
unfoldable pub drop_scheme : Str → Str
unfolding cut
drop_scheme h = elim (cut (bytes "://") h) [ none ↦ h | some (before, after) ↦ after ]

-- `h[:i]` at the first of some bytes (`IndexAny`).
unfoldable pub before_any : Str → Str → Str
before_any chars [] = []
before_any chars (c ∷ s) =
    let rest = before_any chars s in if any_of (λ b. c == b) chars then [] else c ∷ rest

-- `h[:i]` at the last colon.
unfoldable pub drop_port : Str → Str
unfolding cut_last
drop_port h = elim (cut_last b':' h) [ none ↦ h | some (before, after) ↦ before ]

-- `h[:i]` at the first dot.
unfoldable pub first_label : Str → Str
unfolding cut_byte
first_label h = elim (cut_byte b'.' h) [ none ↦ h | some (before, after) ↦ before ]

-- `TrimSuffix`.
unfoldable pub trim_suffix : Str → Str → Str
trim_suffix suffix [] = []
trim_suffix suffix (c ∷ s) =
    let rest = trim_suffix suffix s in if str_eq (c ∷ s) suffix then [] else c ∷ rest

unfoldable pub cluster_label : (Str → Bool) → Str → Str
unfolding drop_scheme before_any drop_port first_label trim_suffix
cluster_label is_ip conn =
    let h = drop_port (before_any (bytes ",/?") (drop_scheme conn)) in
    if is_nil conn
    then bytes "none"
    else if is_ip h
    then h
    else trim_suffix (bytes "-srv") (first_label h)

unfoldable pub address_list : Str → Str
unfolding drop_scheme before_any drop_port
address_list conn =
    let hosts = split b',' (before_any (bytes "/?") (drop_scheme conn)) in
    if is_nil conn
    then bytes "none"
    else join (bytes ", ") (map (λ host. drop_port (trim_space host)) hosts)
