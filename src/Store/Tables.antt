-- ===== src/Store/Tables.antt =====
-- The tables of src/pelicanbench/campaign_store.py (the CREATE TABLE statements of
-- `initialise_campaign_store`) and its dataclasses. The columns are typed: text that is no state
-- of `CELL_STATES` is outside the model.
use pelican_bench.Base.{
  ℕ, String, Bool, true, false, Option, none, some, List, [], ◌∷◌, if◌then◌else◌, ◌==◌, ◌&&◌, eqb,
}
use pelican_bench.Base.Int.{ℤ}
use pelican_bench.Campaign.{CellState}
use pelican_bench.Store.Time.{Timestamp, same_time}
use pelican_bench.Campaign.{same_state}

-- a row of the table `cells`; the CHECK constraints are the type ℕ
pub record CellRow : Type 0 where
  pub cell_id : String
  pub stage_id : String
  pub model_id : String
  pub task_id : String
  pub replicate : ℕ
  pub seed : ℕ
  pub initial_state : CellState
  pub state : CellState
  pub estimated_cost : Option ℤ
  pub actual_cost : ℕ
  pub attempt_count : ℕ
  pub lease_owner : Option String
  pub lease_token : Option String
  pub leased_at : Option Timestamp
  pub lease_expires_at : Option Timestamp
  pub artifact_id : Option String
  pub reason : Option String
  pub updated_at : Timestamp

-- the columns of the table `events` that an event's hash covers
pub record EventColumns : Type 0 where
  pub sequence : ℕ
  pub campaign_id : String
  pub cell_id : String
  pub previous_state : CellState
  pub new_state : CellState
  pub occurred_at : Timestamp
  pub worker_id : Option String
  pub lease_token : Option String
  pub attempt : ℕ
  pub reason : String
  pub estimated_cost : ℕ
  pub actual_cost : ℕ
  pub artifact_id : Option String
  pub previous_event_hash : Option String

-- the content-addressed payload
pub record EventPayload : Type 0 where
  pub schema_version : String
  pub columns : EventColumns

-- the column `payload_json`, by what `json.loads` makes of it
pub data PayloadText : Type 0 where
  payload : EventPayload → PayloadText
  other_json : PayloadText
  unreadable_json : PayloadText

-- a row of the table `events`
pub record EventRow : Type 0 where
  pub columns : EventColumns
  pub open columns use *
  pub event_id : String
  pub event_hash : String
  pub payload_json : PayloadText

-- The database. `metadata` is empty where its table is missing; `events` lists its table by
-- descending primary key, so the newest event is the first.
pub record Store : Type 0 where
  pub metadata : List (String × String)
  pub cells : List CellRow
  pub events : List EventRow

pub record StoreLease : Type 0 where
  pub cell_id : String
  pub stage_id : String
  pub model_id : String
  pub task_id : String
  pub replicate : ℕ
  pub seed : ℕ
  pub worker_id : String
  pub lease_token : String
  pub leased_at : Timestamp
  pub lease_expires_at : Timestamp
  pub attempt : ℕ
  pub estimated_cost : ℤ

-- `_event_payload_from_row`
abbrev pub event_payload_from_row : EventRow → EventPayload
event_payload_from_row row = record { schema_version = "1.0.0"; columns = row.columns }

abbrev pub is_leased : CellRow → Bool
is_leased row = same_state row.state CellState.leased

-- `SELECT * FROM cells WHERE cell_id = ?`
unfoldable pub find_cell : String → List CellRow → Option CellRow
find_cell k [] = none
find_cell k (r ∷ rows) = if r.cell_id == k then some r else find_cell k rows

-- `UPDATE cells SET ... WHERE cell_id = ?`
unfoldable pub update_cell : String → (CellRow → CellRow) → List CellRow → List CellRow
update_cell k f [] = []
update_cell k f (r ∷ rows) = (if r.cell_id == k then f r else r) ∷ update_cell k f rows

-- `==` on payloads, field by field
abbrev pub same_text? : Option String → Option String → Bool
same_text? none none = true
same_text? (some a) (some b) = a == b
same_text? _ _ = false

unfoldable pub same_columns : EventColumns → EventColumns → Bool
same_columns a b =
    eqb a.sequence b.sequence
    && (a.campaign_id == b.campaign_id)
    && (a.cell_id == b.cell_id)
    && same_state a.previous_state b.previous_state
    && same_state a.new_state b.new_state
    && same_time a.occurred_at b.occurred_at
    && same_text? a.worker_id b.worker_id
    && same_text? a.lease_token b.lease_token
    && eqb a.attempt b.attempt
    && (a.reason == b.reason)
    && eqb a.estimated_cost b.estimated_cost
    && eqb a.actual_cost b.actual_cost
    && same_text? a.artifact_id b.artifact_id
    && same_text? a.previous_event_hash b.previous_event_hash

unfoldable pub same_payload : EventPayload → EventPayload → Bool
unfolding same_columns
same_payload a b = (a.schema_version == b.schema_version) && same_columns a.columns b.columns
