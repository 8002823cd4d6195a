-- ===== src/Lambda.antt =====
-- The alarm event and its handler (pkg/event/event.go, pkg/switchhandler/switchhandler.go). JSON
-- decoding is outside, an argument; log lines are left out.
pub mod Delivery
pub mod Eksauth
pub mod Entry
use couchbase_health_observe.Prelude.{
  Bool, true, false, not, List, [], ◌∷◌, Option, none, some, Str, bytes, str_eq, is_nil,
  if◌then◌else◌,
}
use couchbase_health_observe.Actuator.Types.{Error}

pub record Alarm : Type 0 where
  pub alarm_name : Str
  pub new_state_value : Str

abbrev pub zero_alarm : Alarm
zero_alarm = record { alarm_name = []; new_state_value = [] }

unfoldable pub actionable : Alarm → Bool
actionable a = str_eq a.new_state_value (bytes "ALARM")

-- `json.Unmarshal` into the envelope, of which the messages of the records are read, and into an
-- alarm, which an error may leave filled in part.
pub record Json : Type 0 where
  pub envelope : Str → List Str × Option Str
  pub alarm : Str → Alarm × Option Str

abbrev pub first_message : Json → List Str → Alarm × Option Str
first_message J [] = (zero_alarm, none)
first_message J (message ∷ messages) = J.alarm message

unfoldable pub parse : Json → Str → Alarm × Option Str
parse J raw =
    let (messages, err) = J.envelope raw in
    elim err [ some e ↦ (zero_alarm, some e) | none ↦ first_message J messages ]

-- The error of `Parse`, or that of `Switch`, which is the list of its parts.
pub data HandleError : Type 0 where
  bad_event : Str → HandleError
  switch_failed : List Error → HandleError

-- `Handle` of an actuator, which is what it does to the world.
unfoldable pub handle :
    {World : Type 0}
    → Json
    → (World → (Bool × List Error) × World)
    → Str
    → World
    → Option HandleError × World
unfolding parse actionable
handle J act raw w =
    let (a, err) = parse J raw in
    elim err [
      | some e ↦ (some (bad_event e), w)
      | none ↦ elim (actionable a) [
        | false ↦ (none, w)
        | true ↦
            let ((switched, errs), w') = act w in
            if is_nil errs then (none, w') else (some (switch_failed errs), w')
      ]
    ]
