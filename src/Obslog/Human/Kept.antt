-- ===== src/Obslog/Human/Kept.antt =====
-- What a line keeps of its fields (pkg/obslog/human.go).
use couchbase_health_observe.Prelude.{
  Bool, true, false, ◌||◌, ◌≡◌, refl, ap, ap₂, sym, ◌∙◌, List, [], ◌∷◌, ◌++◌, Option, none, some,
  Str, bytes, str_eq, str_eq_iff, is_some, if◌then◌else◌, arith, Bool-cases, inl, inr,
}
use mathlib.Core.List.{append_assoc}
use couchbase_health_observe.Prelude.Dict.{Dict, lookup, insert, lookup-insert}
use couchbase_health_observe.Obslog.Formats.{formats, find_format}
use couchbase_health_observe.Obslog.Events.{Value, string_of, at, known_event, dump, render_event}
use couchbase_health_observe.Obslog.Human.{
  Attr, HumanHandler, Record, add_attrs, fields_of, line_of,
}

-- The value of the last attribute with a key.
unfoldable pub last_of : Str → List Attr → Option Value
last_of k [] = none
last_of k ((j, v) ∷ attrs) =
    let later = last_of k attrs in
    if is_some later then later else if str_eq j k then some v else none

abbrev pub or_else : Option Value → Option Value → Option Value
or_else none o = o
or_else (some v) o = some v

lookup-add_attrs :
    (k : Str) (f : Dict Value) (attrs : List Attr)
    → lookup k (add_attrs f attrs) ≡ or_else (last_of k attrs) (lookup k f)
unfolding add_attrs last_of
lookup-add_attrs k f [] = refl
lookup-add_attrs k f ((j, v) ∷ attrs) =
    ground (arith, lookup-insert j k v f, lookup-add_attrs k (insert j v f) attrs)

lookup-fields_of :
    (k : Str) (h : HumanHandler) (r : Record)
    → lookup k (fields_of h r) ≡ or_else (last_of k r.attrs) (last_of k h.attrs)
unfolding fields_of lookup
lookup-fields_of k h r =
    ground (arith, lookup-add_attrs k (add_attrs [] h.attrs) r.attrs, lookup-add_attrs k [] h.attrs)

-- The events of the cases of the renderer.
abbrev pub is_known : Str → Bool
is_known event =
    str_eq event (bytes "health")
    || str_eq event (bytes "cluster_detail")
    || str_eq event (bytes "cluster_nodes")
    || str_eq event (bytes "cluster_map_change")
    || str_eq event (bytes "configmap_patch")
    || is_some (find_format event formats)

known_event-is_known :
    (event : Str) (at : Str → Str) (v : Option Value)
    → is_some (known_event event at v) ≡ is_known event
unfolding known_event
known_event-is_known event at v = ground arith

same_at : (f g : Dict Value) → ((k : Str) → lookup k f ≡ lookup k g) → at f ≡ at g
unfolding at
same_at f g agree = λ i k. string_of (agree k i)

render_event-same :
    (event : Str) (f g : Dict Value)
    → is_known event ≡ true
    → ((k : Str) → lookup k f ≡ lookup k g)
    → render_event event f ≡ render_event event g
unfolding render_event
render_event-same event f g known agree =
    let v = lookup (bytes "sustained_down_s") f in
    ground (
      arith,
      ap (λ a. known_event event a v) (same_at f g agree),
      agree (bytes "sustained_down_s"),
      known_event-is_known event (at f) v,
    )

-- The line of a known event depends on nothing but the time, the level, the event and the last value
-- of each key, the record's own attributes counting as later than the logger's: neither the order
-- of the attributes nor where they were given shows in it.
pub line_of-last :
    (h h' : HumanHandler) (r r' : Record)
    → is_known r.message ≡ true
    → r.time ≡ r'.time
    → r.level ≡ r'.level
    → r.message ≡ r'.message
    → ((k : Str)
        → or_else (last_of k r.attrs) (last_of k h.attrs)
          ≡ or_else (last_of k r'.attrs) (last_of k h'.attrs))
    → line_of h r ≡ line_of h' r'
unfolding line_of
line_of-last h h' r r' known time level message agree =
    let same =
      render_event-same r.message (fields_of h r) (fields_of h' r') known
        (λ k. lookup-fields_of k h r ∙ agree k ∙ sym (lookup-fields_of k h' r')) in
    ground (arith, same, time, level, message)

-- How the fields of an unknown event are written.
abbrev pub assignment : Str → Value → Str
assignment k v = b' ' ∷ k ++ (b'=' ∷ v.string)

dump-lookup :
    (k : Str) (f : Dict Value) (v : Value)
    → lookup k f ≡ some v
    → (before : Str) × (after : Str) × (dump f ≡ before ++ (assignment k v ++ after))
unfolding dump lookup
dump-lookup k [] v h = cc
dump-lookup k ((j, u) ∷ f) v h = elim (Bool-cases (str_eq j k)) [
  | inl here ↦
      let same : u ≡ v = ground arith in
      ([], dump f, ap₂ (λ i x. assignment i x ++ dump f) ((str_eq_iff j k).0 here) same)
  | inr later ↦
      let (before, after, e) = dump-lookup k f v (ground arith) in
      (
        assignment j u ++ before,
        after,
        ap (λ t. assignment j u ++ t) e
            ∙ sym (append_assoc (assignment j u) before (assignment k v ++ after)),
      )
]

-- Nothing is dropped of an event that the renderer does not know: its message is the event's name,
-- and behind it stands ` key=value` for the last value of every key of the logger and the record.
pub line_of-keeps :
    (h : HumanHandler) (r : Record) (k : Str) (v : Value)
    → is_known r.message ≡ false
    → or_else (last_of k r.attrs) (last_of k h.attrs) ≡ some v
    → (before : Str) × (after : Str) × ((render_event r.message (fields_of h r)).1
        ≡ r.message ++ (before ++ (assignment k v ++ after)))
unfolding render_event
line_of-keeps h r k v unknown last =
    let f = fields_of h r in
    let (before, after, e) = dump-lookup k f v (lookup-fields_of k h r ∙ last) in
    let known = known_event-is_known r.message (at f) (lookup (bytes "sustained_down_s") f) in
    (before, after, ground (arith, known, ap (λ t. r.message ++ t) e))
