-- ===== src/Tests/ObslogTests.antt =====
-- Log lines, levels and connection strings as the observer writes and reads them (pkg/obslog).
use couchbase_health_observe.Prelude.{
  true, false, ◌≡◌, refl, List, [], ◌∷◌, ◌++◌, Option, none, some, Str, bytes, str_eq, ap, sym,
  str_eq_iff, arith,
}
use couchbase_health_observe.Prelude.Int.{pos}
use couchbase_health_observe.Prelude.Strings.{has_byte}
use couchbase_health_observe.Prelude.Strings.Space.{trim_space}
use couchbase_health_observe.Obslog.Levels.{parse, level_of, to_lower}
use couchbase_health_observe.Obslog.Addresses.Forms.{Seed, IsSeed}
use couchbase_health_observe.Obslog.Formats.{find_format, formats}
use couchbase_health_observe.Obslog.Events.{Value, render_event}
use couchbase_health_observe.Obslog.Human.{HumanHandler, Record, fields_of, line_of}
use couchbase_health_observe.Obslog.Human.Kept.{
  line_of-last, line_of-keeps, assignment, last_of, or_else, is_known,
}

warning_parsed : parse (bytes " Warning ") ≡ some (pos 4)
unfolding parse level_of to_lower trim_space str_eq
warning_parsed = refl

abbrev seed_of : Str → Option Str → Seed
seed_of host port = record { host = host; port = port }

abbrev node_a : Seed
node_a = seed_of (bytes "eu-srv.example") (some (bytes "18091"))

abbrev node_b : Seed
node_b = seed_of (bytes "us") none

port_plain : has_byte b':' (bytes "18091") ≡ false
unfolding has_byte
port_plain = refl

node_a-IsSeed : IsSeed node_a
unfolding has_byte trim_space
node_a-IsSeed = record {
  plain_host = refl;
  plain_port = λ p e. ground (arith, port_plain);
  plain_text = refl;
  trimmed = refl;
}

node_b-IsSeed : IsSeed node_b
unfolding has_byte trim_space
node_b-IsSeed = record {
  plain_host = refl;
  plain_port = λ p e. ground arith;
  plain_text = refl;
  trimmed = refl;
}

colon_free : has_byte b':' (bytes "couchbases") ≡ false
unfolding has_byte
colon_free = refl

abbrev text_of : Str → Value
text_of t = record { string = t; float = none }

abbrev handler : List (Str × Value) → HumanHandler
handler attrs = record { level = pos 0; attrs = attrs }

abbrev record_of : Str → List (Str × Value) → Record
record_of message attrs = record {
  time = bytes "10:00:00";
  message = message;
  level = pos 0;
  attrs = attrs;
}

-- The same two attributes, once both of the record and once one of the logger.
abbrev refs_attr : Str × Value
refs_attr = (bytes "refs", text_of (bytes "a/c"))

abbrev err_attr : Str × Value
err_attr = (bytes "err", text_of (bytes "gone"))

different : (k : Str) → str_eq (bytes "err") k ≡ true → str_eq (bytes "refs") k ≡ false
unfolding str_eq
different k e = rw (sym ((str_eq_iff (bytes "err") k).0 e)) refl

last_alike :
    (k : Str)
    → or_else (last_of k (refs_attr ∷ err_attr ∷ [])) none
      ≡ or_else (last_of k (refs_attr ∷ [])) (last_of k (err_attr ∷ []))
unfolding last_of
last_alike k = ground (arith, different k)

startup_known : is_known (bytes "startup") ≡ true
unfolding str_eq find_format formats
startup_known = refl

line_of-last_example :
    line_of (handler []) (record_of (bytes "startup") (refs_attr ∷ err_attr ∷ []))
    ≡ line_of (handler (err_attr ∷ [])) (record_of (bytes "startup") (refs_attr ∷ []))
unfolding last_of
line_of-last_example =
    line_of-last (handler []) (handler (err_attr ∷ []))
      (record_of (bytes "startup") (refs_attr ∷ err_attr ∷ []))
      (record_of (bytes "startup") (refs_attr ∷ [])) startup_known refl refl refl last_alike

custom_unknown : is_known (bytes "custom") ≡ false
unfolding str_eq find_format formats
custom_unknown = refl

err_last : last_of (bytes "err") (refs_attr ∷ err_attr ∷ []) ≡ some (text_of (bytes "gone"))
unfolding last_of str_eq
err_last = refl

line_of-keeps_example :
    (before : Str) × (after : Str) × ((render_event
        (bytes "custom")
        (fields_of (handler []) (record_of (bytes "custom") (refs_attr ∷ err_attr ∷ [])))).1
      ≡ bytes "custom" ++ (before ++ (assignment (bytes "err") (text_of (bytes "gone")) ++ after)))
unfolding last_of
line_of-keeps_example =
    line_of-keeps (handler []) (record_of (bytes "custom") (refs_attr ∷ err_attr ∷ []))
      (bytes "err") (text_of (bytes "gone")) custom_unknown (ap (λ o. or_else o none) err_last)
