-- ===== src/Audit.antt =====
-- teldrive_lab/audit.py: the event log. Its file is the list of its rows; `event_id` is UNIQUE.
-- `details_json` is kept as the sorted entries of the dictionary that the code writes as JSON.
use teldrive_lab.Prelude.{
  ℕ, String, Bool, Option, List, [], ◌∷◌, ◌++◌, ◌==◌, any_by, if◌then◌else◌, text_le,
}
use teldrive_lab.Exec.{Action, ok, err, integrity_error}
use teldrive_lab.Sql.{order_by}

-- The values that the code puts into `details`.
pub data Detail : Type 0 where
  text : String → Detail
  number : ℕ → Detail
  null : Detail

pub record Event : Type 0 where
  pub event_id : String
  pub timestamp : ℕ
  pub operation : String
  pub job_id : Option String
  pub source : Option String
  pub destination : Option String
  pub decision : String
  pub result : Option String
  pub checksum : Option String
  pub error_code : Option String
  pub details : List (String × Detail)

abbrev by_key : String × Detail → String × Detail → Bool
by_key (a, _) (b, _) = text_le a b

-- The row that `record_event` inserts.
abbrev pub event_row : Event → Event
event_row e = record e { details = order_by by_key e.details }

abbrev pub known_event : String → List Event → Bool
known_event event_id = any_by (λ e. e.event_id == event_id)

unfoldable pub record_event : Event → Action (List Event) (Unit {0})
record_event e events =
    if known_event e.event_id events
    then (err integrity_error, events)
    else (ok tt, events ++ event_row e ∷ [])
