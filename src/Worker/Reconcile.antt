-- ===== src/Worker/Reconcile.antt =====
-- `reconcile_campaign_execution_records` of
-- src/pelicanbench/campaign_worker.py: the record files against the terminal events of the store.

use text.Mathlib.Text.{starts_with}
use pelican_bench.Base.{
  ℕ, ◌+◌, String, Bool, true, false, not, Option, none, some, List, [], ◌∷◌, ◌++◌, if◌then◌else◌,
  ltb, leb, eqb, ◌==◌, ◌&&◌, ◌||◌, is_none,
}
use pelican_bench.Base.Int.{pos_part, neg_part}
use pelican_bench.Base.Lists.{any, select, sort_by, length}
use pelican_bench.Campaign.{CampaignManifest, CellState, succeeded, failed, quarantined, same_state}
use pelican_bench.Store.Result.{Result, ok, ◌>>=◌}
use pelican_bench.Store.Money.{Amount, finite, infinite, nan, grain}
use pelican_bench.Store.Tables.{Store, EventRow, same_text?}
use pelican_bench.Store.Journal.{Codec}
use pelican_bench.Store.Status.{read_store_events}
use pelican_bench.Store.Reconcile.{reconcile_campaign_store}
use pelican_bench.Worker.Files.{
  AttemptValue, RecordFile, StoredRecord, integer, read_campaign_execution_records, comes_before,
}

-- (cell_id, lease_token, attempt)
pub record Key : Type 0 where
  pub cell_id : String
  pub lease_token : String
  pub attempt : ℕ

abbrev pub same_key : Key → Key → Bool
same_key a b =
    (a.cell_id == b.cell_id) && (a.lease_token == b.lease_token) && eqb a.attempt b.attempt

abbrev pub key_before : Key → Key → Bool
key_before a b =
    comes_before a.cell_id b.cell_id
    || (a.cell_id == b.cell_id)
      && (comes_before a.lease_token b.lease_token
          || (a.lease_token == b.lease_token) && ltb a.attempt b.attempt)

pub data Field : Type 0 where
  campaign_id cell_id worker_id lease_token attempt terminal_state terminal_reason artifact_id :
      Field

pub data Mismatch : Type 0 where
  store_invalid : Mismatch
  no_token : (event_id : String) → Mismatch
  malformed_identity : Mismatch
  duplicate_event duplicate_record no_event no_record invalid_cost cost_mismatch : Key → Mismatch
  field_mismatch : Key → Field → Mismatch

-- `_is_worker_terminal_event`
abbrev pub worker_reasons : List String
worker_reasons =
    "task-missing-from-worker-corpus" ∷ "worker-infrastructure-failure" ∷ "generation-failed"
    ∷ "runner-produced-no-outcome" ∷ "canonical-artifact-retained" ∷ []

unfoldable pub is_worker_terminal_event : EventRow → Bool
is_worker_terminal_event e =
    any (λ (reason : String). e.reason == reason) worker_reasons
    || starts_with e.reason "artifact-failed-retention-gates:"

-- the filter of `terminal_events`
abbrev pub is_terminal_event : EventRow → Bool
is_terminal_event e =
    (same_state e.new_state succeeded
      || same_state e.new_state failed
      || same_state e.new_state quarantined)
    && not (is_none e.worker_id)
    && is_worker_terminal_event e

-- `_terminal_event_key`; None is the ValueError
abbrev pub terminal_event_key : EventRow → Option Key
terminal_event_key e = elim e.lease_token [
  | none ↦ none
  | some t ↦ some (record { cell_id = e.cell_id; lease_token = t; attempt = e.attempt })
]

-- the key of a record; None is the KeyError, the TypeError or the ValueError
abbrev pub record_key : StoredRecord → Option Key
record_key r = elim r.cell_id [
  | none ↦ none
  | some cell ↦ elim r.lease_token [
    | none ↦ none
    | some t ↦ elim r.attempt [
      | integer n ↦ some (record { cell_id = cell; lease_token = t; attempt = n })
      | _ ↦ none
    ]
  ]
]

module _ {A : Type 0} where
  -- `values.get(key)` of a dict by keys; the order of a dict is not used
  unfoldable pub find_key : Key → List (Key × A) → Option A
  find_key k [] = none
  find_key k (entry ∷ rest) = if same_key entry.0 k then some entry.1 else find_key k rest

  -- the loops that fill `event_map` and `record_map`, with the errors that they append
  unfoldable pub index_by :
      (A → Option Key)
      → (A → Mismatch)
      → (Key → Mismatch)
      → List A
      → List (Key × A)
      → List (Key × A) × List Mismatch
  index_by key_of no_key twice [] found = (found, [])
  index_by key_of no_key twice (x ∷ xs) found = elim (key_of x) [
    | none ↦
        let (all_found, errors) = index_by key_of no_key twice xs found in
        (all_found, no_key x ∷ errors)
    | some k ↦
        let (rest, errors) = index_by key_of no_key twice xs found in
        let fresh = index_by key_of no_key twice xs ((k, x) ∷ found) in
        if is_none (find_key k found) then fresh else (rest, twice k ∷ errors)
  ]

  abbrev pub keys_of : List (Key × A) → List Key
  keys_of [] = []
  keys_of (entry ∷ rest) = entry.0 ∷ keys_of rest

abbrev pub same_attempt : AttemptValue → ℕ → Bool
same_attempt (integer a) b = eqb a b
same_attempt _ _ = false

abbrev pub same_state? : Option CellState → CellState → Bool
same_state? none _ = false
same_state? (some a) b = same_state a b

-- the loop over `expected_fields`; a field is with its test
abbrev pub field_errors : Key → List (Field × Bool) → List Mismatch
field_errors k [] = []
field_errors k (f ∷ fields) =
    let rest = field_errors k fields in if f.1 then rest else field_mismatch k f.0 ∷ rest

-- `abs(charged_cost - actual_cost) > 1e-8`; a comparison with nan is False
abbrev pub cost_errors : Key → Option Amount → ℕ → List Mismatch
cost_errors k none actual = invalid_cost k ∷ []
cost_errors k (some nan) actual = []
cost_errors k (some infinite) actual = cost_mismatch k ∷ []
cost_errors k (some (finite c)) actual =
    if leb (pos_part c) (actual + neg_part c + grain)
      && leb (actual + neg_part c) (pos_part c + grain)
    then []
    else cost_mismatch k ∷ []

-- `expected_fields`, each compared with the record's
abbrev pub field_tests : EventRow → StoredRecord → List (Field × Bool)
field_tests e r =
    (campaign_id, same_text? r.campaign_id (some e.campaign_id))
    ∷ (cell_id, same_text? r.cell_id (some e.cell_id))
    ∷ (worker_id, same_text? r.worker_id e.worker_id)
    ∷ (lease_token, same_text? r.lease_token e.lease_token)
    ∷ (attempt, same_attempt r.attempt e.attempt)
    ∷ (terminal_state, same_state? r.terminal_state e.new_state)
    ∷ (terminal_reason, same_text? r.terminal_reason (some e.reason))
    ∷ (artifact_id, same_text? r.artifact_id e.artifact_id)
    ∷ []

-- a matched record and event
unfoldable pub pair_errors : Key → EventRow → StoredRecord → List Mismatch
pair_errors k e r = field_errors k (field_tests e r) ++ cost_errors k r.charged_cost e.actual_cost

module _ (events : List (Key × EventRow)) (records : List (Key × StoredRecord)) where
  -- one round of the loop over the keys
  unfoldable pub key_errors : Key → List Mismatch
  key_errors k = elim (find_key k events) [
    | none ↦ no_event k ∷ []
    | some e ↦ elim (find_key k records) [ none ↦ no_record k ∷ [] | some r ↦ pair_errors k e r ]
  ]

  unfoldable pub keys_errors : List Key → List Mismatch
  keys_errors [] = []
  keys_errors (k ∷ ks) = key_errors k ++ keys_errors ks

  abbrev pub is_record_only : Key → Bool
  is_record_only k = is_none (find_key k events)

  -- `sorted(set(event_map) | set(record_map))`
  abbrev pub sorted_keys : List Key
  sorted_keys = sort_by key_before (keys_of events ++ select is_record_only (keys_of records))

  -- `len(set(event_map) & set(record_map))`
  abbrev pub matched_count : ℕ
  matched_count = length (select (λ (k : Key). not (is_record_only k)) (keys_of records))

pub record ExecutionReconciliation : Type 0 where
  pub campaign_id : String
  pub valid : Bool
  pub terminal_events : ℕ
  pub execution_records : ℕ
  pub matched_records : ℕ
  pub errors : List Mismatch

abbrev pub no_errors : List Mismatch → Bool
no_errors [] = true
no_errors (_ ∷ _) = false

-- the errors of the store's own audit count as one
abbrev pub store_errors : Bool → List Mismatch
store_errors true = []
store_errors false = store_invalid ∷ []

abbrev pub terminal_events_of : Store → List EventRow
terminal_events_of s = select is_terminal_event (read_store_events s)

abbrev pub event_index : List EventRow → List (Key × EventRow) × List Mismatch
event_index events =
    index_by terminal_event_key (λ (e : EventRow). no_token e.event_id) duplicate_event events []

abbrev pub record_index : List StoredRecord → List (Key × StoredRecord) × List Mismatch
record_index records =
    index_by record_key (λ (r : StoredRecord). malformed_identity) duplicate_record records []

module _ (d : Codec) (m : CampaignManifest) where
  -- what follows the reading of the files
  unfoldable pub reconcile_records : Store → List StoredRecord → ExecutionReconciliation
  reconcile_records s records =
      let events = terminal_events_of s in
      let (event_map, event_errors) = event_index events in
      let (record_map, record_errors) = record_index records in
      let errors =
        store_errors (reconcile_campaign_store d m s).valid
        ++ event_errors
        ++ record_errors
        ++ keys_errors event_map record_map (sorted_keys event_map record_map) in
      record {
        campaign_id = m.campaign_id;
        valid = no_errors errors;
        terminal_events = length events;
        execution_records = length records;
        matched_records = matched_count event_map record_map;
        errors = errors;
      }

  unfoldable pub reconcile_campaign_execution_records :
      Store → List RecordFile → Result ExecutionReconciliation
  reconcile_campaign_execution_records s files = do
    records ← read_campaign_execution_records files
    ok (reconcile_records s records)
