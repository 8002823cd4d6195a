-- ===== src/Actuator/Refs/Parsing.antt =====
-- What parsing accepts, and that it reads back what was written (pkg/actuator/refs.go).
use couchbase_health_observe.Prelude.{
  Bool, true, false, not, ◌&&◌, ◌||◌, ◌≡◌, ◌≢◌, refl, ◌∙◌, List, [], ◌∷◌, ◌++◌, none, Str, bytes,
  join, map, arith, is_nil, is_nil-append_cons, All,
}
use mathlib.Core.List.{append-nil, append_assoc}
use couchbase_health_observe.Prelude.Strings.{has_byte, split}
use couchbase_health_observe.Prelude.Strings.Cuts.{cut_byte-append, split-join}
use couchbase_health_observe.Prelude.Strings.Space.{trim_space}
use couchbase_health_observe.Actuator.Types.{Ref, string, ref_eq_iff, has_ref}
use couchbase_health_observe.Actuator.Refs.{qualify, parse_entries, parse_refs, parse_refs_required}

-- A target that names something: both parts are there, and no slash is left in the name.
abbrev pub names_target : Ref → Bool
names_target r = not (is_nil r.namespace) && (not (is_nil r.name) && not (has_byte b'/' r.name))

abbrev pub AreTargets : List Ref → Type 0
AreTargets [] = Unit
AreTargets (r ∷ refs) = (names_target r ≡ true) × (has_ref refs r ≡ false) × AreTargets refs

has_ref-append :
    (rs ss : List Ref) (r : Ref) → has_ref (rs ++ ss) r ≡ (has_ref rs r || has_ref ss r)
unfolding has_ref
has_ref-append [] ss r = refl
has_ref-append (q ∷ rs) ss r = ground (arith, has_ref-append rs ss r)

append-AreTargets :
    (out : List Ref) (r : Ref)
    → AreTargets out
    → names_target r ≡ true
    → has_ref out r ≡ false
    → AreTargets (out ++ (r ∷ []))
unfolding has_ref
append-AreTargets [] r a n h = (n, refl, tt)
append-AreTargets (q ∷ out) r a n h = (
  a.0,
  ground (arith, has_ref-append out (r ∷ []) q, ref_eq_iff q r, ref_eq_iff r q),
  append-AreTargets out r a.2 n (ground arith),
)

parse_entries-AreTargets :
    (default_ns : Str) (out : List Ref) (entries : List Str)
    → AreTargets out
    → AreTargets (parse_entries default_ns out entries).0
unfolding parse_entries
parse_entries-AreTargets default_ns out [] a = a
parse_entries-AreTargets default_ns out (raw ∷ entries) a =
    let (ns, name) = qualify default_ns (trim_space raw) in
    let r : Ref = record { namespace = ns; name = name } in
    ground (
      arith,
      parse_entries-AreTargets default_ns out entries a,
      append-AreTargets out r a,
      parse_entries-AreTargets default_ns (out ++ (r ∷ [])) entries,
    )

-- Whatever the text, the parsed targets have a namespace and a name without a slash, and none is
-- listed twice; where a target is required, a result without an error lists one.
pub parse_refs-AreTargets :
    (list default_ns : Str)
    → AreTargets (parse_refs list default_ns).0
      × (let (refs, err) = parse_refs_required list default_ns in
          err ≡ none → (refs ≢ []) × (refs ≡ (parse_refs list default_ns).0))
unfolding parse_refs_required
parse_refs-AreTargets list default_ns = (
  unfold parse_refs in parse_entries-AreTargets default_ns [] (split b',' list) tt,
  λ e. ground arith,
)

-- A target that can be written in a list: its parts hold no slash, its text no comma, and no white
-- space at its ends.
pub record IsWritable (r : Ref) : Type 0 where
  pub target : names_target r ≡ true
  pub plain_namespace : has_byte b'/' r.namespace ≡ false
  pub no_comma : has_byte b',' (string r) ≡ false
  pub trimmed : trim_space (string r) ≡ string r

abbrev pub AreWritable : List Ref → List Ref → Type 0
AreWritable seen [] = Unit
AreWritable seen (r ∷ refs) =
    IsWritable r × (has_ref seen r ≡ false) × AreWritable (seen ++ (r ∷ [])) refs

qualify-string :
    (default_ns : Str) (r : Ref)
    → has_byte b'/' r.namespace ≡ false
    → qualify default_ns (string r) ≡ (r.namespace, r.name)
unfolding qualify string
qualify-string default_ns r plain = ground (arith, cut_byte-append b'/' r.namespace r.name plain)

string-nonempty : (r : Ref) → is_nil (string r) ≡ false
unfolding string
string-nonempty r = is_nil-append_cons r.namespace b'/' r.name

is_valid :
    (r : Ref) → IsWritable r → (is_nil r.namespace || is_nil r.name || has_byte b'/' r.name) ≡ false
is_valid r v = ground (arith, v.target)

parse_entries-step :
    (default_ns : Str) (out : List Ref) (r : Ref) (entries : List Str)
    → IsWritable r
    → has_ref out r ≡ false
    → parse_entries default_ns out (string r ∷ entries)
      ≡ parse_entries default_ns (out ++ (r ∷ [])) entries
unfolding parse_entries
parse_entries-step default_ns out r entries v fresh = rw (
  v.trimmed,
  qualify-string default_ns r v.plain_namespace,
  string-nonempty r,
  is_valid r v,
  fresh,
)

parse_entries-string :
    (default_ns : Str) (out refs : List Ref)
    → AreWritable out refs
    → parse_entries default_ns out (map string refs) ≡ (out ++ refs, none)
unfolding parse_entries
parse_entries-string default_ns out [] w = rw append-nil
parse_entries-string default_ns out (r ∷ refs) w =
    parse_entries-step default_ns out r (map string refs) w.0 w.1
    ∙ parse_entries-string default_ns (out ++ (r ∷ [])) refs w.2
    ∙ rw (append_assoc out (r ∷ []) refs)

map-no_comma :
    (seen refs : List Ref)
    → AreWritable seen refs
    → All (λ t. has_byte b',' t ≡ false) (map string refs)
map-no_comma seen [] w = tt
map-no_comma seen (r ∷ refs) w = (w.0.no_comma, map-no_comma (seen ++ (r ∷ [])) refs w.2)

-- A list of distinct targets that can be written is read back from its text as it was, whatever the
-- default namespace.
pub parse_refs-join :
    (default_ns : Str) (refs : List Ref)
    → AreWritable [] refs
    → parse_refs (join (bytes ",") (map string refs)) default_ns ≡ (refs, none)
unfolding parse_refs
parse_refs-join default_ns [] w = unfold join split trim_space in refl
parse_refs-join default_ns (r ∷ refs) w =
    rw (split-join b',' (string r) (map string refs) (map-no_comma [] (r ∷ refs) w))
      (parse_entries-string default_ns [] (r ∷ refs) w)
