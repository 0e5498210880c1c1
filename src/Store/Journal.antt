-- ===== src/Store/Journal.antt =====
-- `_verify_manifest`, `_last_event_hash`, `_next_sequence` and `_insert_event` of
-- src/pelicanbench/campaign_store.py: the checks before a write, and the hash-chained journal.
use pelican_bench.Base.{
  ℕ, suc, String, Bool, true, false, ◌||◌, ◌&&◌, Option, none, some, List, [], ◌∷◌, if◌then◌else◌,
  ◌==◌, is_none,
}
use pelican_bench.Base.Int.{ℤ, pos, pos_part, ltb_ℤ}
use pelican_bench.Base.Lists.{any}
use pelican_bench.Base.Text.{◌^^◌, take_chars, after_colon, is_blank, is_empty}
use pelican_bench.Campaign.{CampaignManifest, CellState, succeeded, quarantined, store_allows}
use pelican_bench.Store.Result.{
  Result, ok, err, ◌>>◌, raise_if, raise_unless, not_initialised, schema_unsupported,
  different_campaign, manifest_mismatch, illegal_transition, reason_required, negative_cost,
  artifact_required, integrity_error,
}
use pelican_bench.Store.Money.{round8}
use pelican_bench.Store.Time.{Timestamp}
use pelican_bench.Store.Tables.{Store, EventColumns, EventPayload, EventRow, payload, find_cell}

-- What `hashlib`, `json` and `str` make of values: the hexadecimal SHA-256 digests of the canonical
-- JSON of the two kinds of value that the store hashes, and the texts of two metadata values.
pub record Codec : Type 0 where
  pub of_manifest : CampaignManifest → String
  pub of_event : EventPayload → String
  pub budget_json : Option ℤ → String
  pub count_text : ℕ → String

abbrev pub lookup : String → List (String × String) → Option String
lookup k [] = none
lookup k ((j, v) ∷ rest) = if j == k then some v else lookup k rest

-- `values.get(key) == expected`
abbrev pub has_value : String → String → List (String × String) → Bool
has_value k v values = elim (lookup k values) [ none ↦ false | some w ↦ w == v ]

-- `not artifact_id`
abbrev pub no_artifact : Option String → Bool
no_artifact none = true
no_artifact (some a) = is_empty a

-- `_last_event_hash`
abbrev pub last_event_hash : List EventRow → Option String
last_event_hash [] = none
last_event_hash (e ∷ _) = some e.event_hash

-- `_next_sequence`
abbrev pub next_sequence : List EventRow → ℕ
next_sequence [] = 0
next_sequence (e ∷ _) = suc e.sequence

-- the columns of `_insert_event`'s INSERT, less what the journal itself supplies
pub record EventDraft : Type 0 where
  pub cell_id : String
  pub previous_state : CellState
  pub new_state : CellState
  pub occurred_at : Timestamp
  pub worker_id : Option String
  pub lease_token : Option String
  pub attempt : ℕ
  pub reason : String
  pub estimated_cost : ℤ
  pub actual_cost : ℤ
  pub artifact_id : Option String

abbrev pub needs_artifact : CellState → Bool
needs_artifact succeeded = true
needs_artifact quarantined = true
needs_artifact _ = false

-- `"CEVT-" + event_hash.split(":", 1)[1][:24]`
abbrev pub event_id_of : String → String
event_id_of hash = "CEVT-" ^^ take_chars 24 (after_colon hash)

module _ (d : Codec) where
  -- `_manifest_hash`, and `content_hash` of a payload (src/pelicanbench/io.py)
  abbrev pub manifest_hash : CampaignManifest → String
  manifest_hash m = "sha256:" ^^ d.of_manifest m

  abbrev pub content_hash : EventPayload → String
  content_hash p = "sha256:" ^^ d.of_event p

  -- `_verify_manifest`
  unfoldable pub verify_manifest : CampaignManifest → Store → Result (Unit {0})
  verify_manifest m s = elim s.metadata [
    | [] ↦ err not_initialised
    | _ ∷ _ ↦ do
      raise_unless (has_value "schema_version" "2" s.metadata) schema_unsupported
      raise_unless (has_value "campaign_id" m.campaign_id s.metadata) different_campaign
      raise_unless (has_value "manifest_hash" (manifest_hash m) s.metadata) manifest_mismatch
  ]

  -- the row that `_insert_event` writes
  unfoldable pub event_columns : CampaignManifest → EventDraft → List EventRow → EventColumns
  event_columns m e events = record {
    sequence = next_sequence events;
    campaign_id = m.campaign_id;
    cell_id = e.cell_id;
    previous_state = e.previous_state;
    new_state = e.new_state;
    occurred_at = e.occurred_at;
    worker_id = e.worker_id;
    lease_token = e.lease_token;
    attempt = e.attempt;
    reason = e.reason;
    estimated_cost = round8 (pos_part e.estimated_cost);
    actual_cost = round8 (pos_part e.actual_cost);
    artifact_id = e.artifact_id;
    previous_event_hash = last_event_hash events;
  }

  unfoldable pub event_row : CampaignManifest → EventDraft → List EventRow → EventRow
  event_row m e events =
      let columns = event_columns m e events in
      let p : EventPayload = record { schema_version = "1.0.0"; columns = columns } in
      let hash = content_hash p in
      record {
        columns = columns;
        event_id = event_id_of hash;
        event_hash = hash;
        payload_json = payload p;
      }

  -- the UNIQUE constraints on `event_id` and `event_hash`
  unfoldable pub is_recorded : EventRow → List EventRow → Bool
  is_recorded row events =
      any (λ (e : EventRow). (e.event_id == row.event_id) || (e.event_hash == row.event_hash))
        events

  -- `_insert_event`; the UNIQUE and REFERENCES constraints of the table are checked by SQLite
  unfoldable pub insert_event : CampaignManifest → EventDraft → Store → Result (EventRow × Store)
  insert_event m e s = do
    raise_unless (store_allows e.previous_state e.new_state)
        (illegal_transition e.previous_state e.new_state)
    raise_if (is_blank e.reason) reason_required
    raise_if (ltb_ℤ e.estimated_cost (pos 0) || ltb_ℤ e.actual_cost (pos 0)) negative_cost
    raise_if (needs_artifact e.new_state && no_artifact e.artifact_id) artifact_required
    let row = event_row m e s.events
    raise_if (is_none (find_cell e.cell_id s.cells)) integrity_error
    raise_if (is_recorded row s.events) integrity_error
    ok (row, record s { events = row ∷ s.events })
