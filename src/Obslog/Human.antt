-- ===== src/Obslog/Human.antt =====
-- The handler that prints lines for people (pkg/obslog/human.go). The writer is outside: a line is
-- what is handed to it, under the handler's lock. What it answers is the error of `Handle`.
pub mod Kept
use couchbase_health_observe.Prelude.{
  ℕ, zero, suc, ◌+◌, ◌-◌, Bool, if◌then◌else◌, List, [], ◌∷◌, ◌++◌, Str, bytes, length,
}
use couchbase_health_observe.Prelude.Int.{ℤ}
use couchbase_health_observe.Prelude.Dict.{Dict, insert}
use couchbase_health_observe.Obslog.Levels.{level_label, enabled}
use couchbase_health_observe.Obslog.Events.{Value, render_event}

abbrev pub Attr : Type 0
Attr = Str × Value

pub record HumanHandler : Type 0 where
  pub level : ℤ
  pub attrs : List Attr

-- A record of slog, its time attrs the layout of the line prints it.
pub record Record : Type 0 where
  pub time : Str
  pub message : Str
  pub level : ℤ
  pub attrs : List Attr

unfoldable pub handler_enabled : HumanHandler → ℤ → Bool
unfolding enabled
handler_enabled h l = enabled h.level l

unfoldable pub with_attrs : HumanHandler → List Attr → HumanHandler
with_attrs h attrs = record h { attrs = h.attrs ++ attrs }

unfoldable pub with_group : HumanHandler → Str → HumanHandler
with_group h name = h

-- A loop that writes attributes into the map of the fields.
unfoldable pub add_attrs : Dict Value → List Attr → Dict Value
add_attrs fields [] = fields
add_attrs fields ((k, v) ∷ attrs) = add_attrs (insert k v fields) attrs

unfoldable pub fields_of : HumanHandler → Record → Dict Value
unfolding add_attrs
fields_of h r = add_attrs (add_attrs [] h.attrs) r.attrs

abbrev blanks : ℕ → Str
blanks zero = []
blanks (suc n) = b' ' ∷ blanks n

-- `%-5s` and `%-9s`: what is padded is ASCII.
unfoldable pub pad : ℕ → Str → Str
pad width s = s ++ blanks (width - length s)

-- The line that is written.
unfoldable pub line_of : HumanHandler → Record → Str
unfolding fields_of render_event level_label pad
line_of h r =
    let (component, message) = render_event r.message (fields_of h r) in
    r.time
    ++ (bytes " "
        ++ (pad 5 (level_label r.level)
            ++ (bytes " " ++ (pad 9 component ++ (bytes " " ++ (message ++ (b'\n' ∷ [])))))))

-- What a logger writes of a record: nothing where the level is not enabled.
unfoldable pub log_record : HumanHandler → Record → List Str
unfolding handler_enabled line_of
log_record h r = if handler_enabled h r.level then line_of h r ∷ [] else []
