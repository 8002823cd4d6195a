-- ===== src/Observer/Actuators.antt =====
-- The set of enabled actuators (cmd/svchealthcheck/actuators.go).
use couchbase_health_observe.Prelude.{
  Bool, true, false, not, ◌||◌, ◌≡◌, ◌≢◌, refl, List, [], ◌∷◌, ◌++◌, Option, none, some, Str, bytes,
  is_nil, is_none, str_eq, str_eq_iff, if◌then◌else◌, arith, all_of, any_of,
}
use couchbase_health_observe.Prelude.Strings.{split}
use couchbase_health_observe.Prelude.Strings.Space.{trim_space}

pub record Actuators : Type 0 where
  pub k8s : Bool
  pub webhook : Bool

abbrev pub no_actuators : Actuators
no_actuators = record { k8s = false; webhook = false }

unfoldable pub any : Actuators → Bool
any a = a.k8s || a.webhook

unfoldable pub list : Actuators → List Str
list a =
    (if a.k8s then bytes "k8s" ∷ [] else []) ++ (if a.webhook then bytes "webhook" ∷ [] else [])

pub data FlagError : Type 0 where
  unknown_actuator unknown_mode : Str → FlagError

-- What a trimmed part of the list asks for: the cases of the inner `switch`.
pub data Part : Type 0 where
  empty_part k8s_part webhook_part unknown_part : Part

unfoldable pub part_of : Str → Part
part_of part =
    if is_nil part
    then empty_part
    else if str_eq part (bytes "k8s")
    then k8s_part
    else if str_eq part (bytes "webhook")
    then webhook_part
    else unknown_part

unfoldable pub parse_parts : Actuators → List Str → Actuators × Option FlagError
parse_parts a [] = (a, none)
parse_parts a (raw ∷ parts) = elim (part_of (trim_space raw)) [
  | empty_part ↦ parse_parts a parts
  | k8s_part ↦ parse_parts (record a { k8s = true }) parts
  | webhook_part ↦ parse_parts (record a { webhook = true }) parts
  | unknown_part ↦ (no_actuators, some (unknown_actuator (trim_space raw)))
]

-- The set, whether `--mode` was given, and the error.
unfoldable pub parse_actuators : Str → Str → Actuators × Bool × Option FlagError
unfolding parse_parts part_of
parse_actuators list mode =
    let deprecated = not (is_nil mode) in
    let (a, err) = parse_parts no_actuators (split b',' list) in
    let by_list : Actuators × Bool × Option FlagError = elim err [
      | some e ↦ (no_actuators, false, some e)
      | none ↦ (a, deprecated, none)
    ] in
    if not (is_nil list)
    then by_list
    else if is_nil mode || str_eq mode (bytes "observe")
    then (no_actuators, deprecated, none)
    else if str_eq mode (bytes "active")
    then (record { k8s = true; webhook = false }, deprecated, none)
    else (no_actuators, false, some (unknown_mode mode))

abbrev pub asks : Str → Str → Bool
asks word raw = str_eq (trim_space raw) word

abbrev pub known : Str → Bool
known raw = is_nil (trim_space raw) || (asks (bytes "k8s") raw || asks (bytes "webhook") raw)

-- A text is at most one of the two words, and neither is empty.
apart :
    (s : Str)
    → (is_nil s ≡ true → (str_eq s (bytes "k8s") ≡ false) × (str_eq s (bytes "webhook") ≡ false))
      × (str_eq s (bytes "k8s") ≡ true → str_eq s (bytes "webhook") ≡ false)
unfolding str_eq
apart s = ground (arith, str_eq_iff s (bytes "k8s"))

parse_parts-exact :
    (a : Actuators) (parts : List Str)
    → let (out, err) = parse_parts a parts in
      (is_none err ≡ all_of known parts)
      × (all_of known parts ≡ true
          → (out.k8s ≡ (a.k8s || any_of (asks (bytes "k8s")) parts))
            × (out.webhook ≡ (a.webhook || any_of (asks (bytes "webhook")) parts)))
unfolding parse_parts part_of
parse_parts-exact a [] = ground arith
parse_parts-exact a (raw ∷ parts) =
    let word = trim_space raw in
    let facts = apart word in
    ground (
      arith,
      facts.0,
      facts.1,
      parse_parts-exact a parts,
      parse_parts-exact (record a { k8s = true }) parts,
      parse_parts-exact (record a { webhook = true }) parts,
    )

-- A list that is not empty is accepted exactly if each of its parts, trimmed, is empty or one of
-- the two words, whatever the mode says; the set holds an actuator exactly if some part names it,
-- and `--mode` is reported as given exactly if it is not empty.
parse_actuators-list :
    (list mode : Str)
    → list ≢ []
    → let (a, deprecated, err) = parse_actuators list mode in
      let parts = split b',' list in
      (is_none err ≡ all_of known parts)
      × (all_of known parts ≡ true
          → (a.k8s ≡ any_of (asks (bytes "k8s")) parts)
            × (a.webhook ≡ any_of (asks (bytes "webhook")) parts)
            × (deprecated ≡ not (is_nil mode)))
unfolding parse_actuators
parse_actuators-list [] mode h = absurd (h refl)
parse_actuators-list (c ∷ list) mode h =
    ground (arith, parse_parts-exact no_actuators (split b',' (c ∷ list)))
