-- ===== src/Store/Reconcile.antt =====
-- `reconcile_campaign_store` of src/pelicanbench/campaign_store.py: the audit that replays the
-- journal and compares it with the cells. The list of error texts is not modelled, but for the
-- first error of the replay.
use pelican_bench.Base.{
  ℕ, suc, ◌+◌, String, Bool, true, false, not, Option, none, some, List, [], ◌∷◌, if◌then◌else◌,
  ◌==◌, eqb, leb, ◌&&◌, ◌||◌, is_none,
}
use pelican_bench.Base.Lists.{all, length}
use pelican_bench.Campaign.{CampaignManifest, CampaignCell, CellState, same_state, store_allows}
use pelican_bench.Store.Result.{
  Error, Result, ok, err, ◌>>=◌, ◌>>◌, raise_unless, sequence_not_contiguous, chain_broken,
  columns_differ, hash_differs, event_id_differs, unknown_cell, replay_state_differs,
  illegal_transition, payload_unreadable,
}
use pelican_bench.Store.Money.{grain, round8}
use pelican_bench.Store.Tables.{
  Store, CellRow, EventPayload, EventRow, PayloadText, payload, other_json, unreadable_json,
  event_payload_from_row, is_leased, same_payload, same_text?, find_cell,
}
use pelican_bench.Store.Journal.{Codec, content_hash, event_id_of, verify_manifest}
use pelican_bench.Store.Queries.{spent_cost}

-- one entry of the dicts `states` and `costs`, which have the same keys
pub record ReplayCell : Type 0 where
  pub cell_id : String
  pub state : CellState
  pub cost : ℕ

abbrev pub replay_start : List CampaignCell → List ReplayCell
replay_start [] = []
replay_start (c ∷ cells) =
    record { cell_id = c.cell_id; state = c.state; cost = 0 } ∷ replay_start cells

-- `states[cell_id]` and `costs[cell_id]`
unfoldable pub find_replay : String → List ReplayCell → Option ReplayCell
find_replay k [] = none
find_replay k (c ∷ cs) = if c.cell_id == k then some c else find_replay k cs

-- `states[cell_id] = new_state` and `costs[cell_id] += cost`
unfoldable pub replay_set : String → CellState → ℕ → List ReplayCell → List ReplayCell
replay_set k state cost [] = []
replay_set k state cost (c ∷ cs) =
    (if c.cell_id == k then record c { state = state; cost = c.cost + cost } else c)
    ∷ replay_set k state cost cs

abbrev pub require_replay : String → List ReplayCell → Result ReplayCell
require_replay k cs = elim (find_replay k cs) [ none ↦ err unknown_cell | some c ↦ ok c ]

-- `json.loads(payload_json)` and the test `payload != projected_payload`
abbrev pub check_payload : PayloadText → EventPayload → Result (Unit {0})
check_payload (payload p) projected = raise_unless (same_payload p projected) columns_differ
check_payload other_json projected = err columns_differ
check_payload unreadable_json projected = err payload_unreadable

-- `json.loads` comes before the other tests
abbrev pub check_readable : PayloadText → Result (Unit {0})
check_readable unreadable_json = err payload_unreadable
check_readable _ = ok tt

-- the variables of the replay loop
pub record Replay : Type 0 where
  pub expected_sequence : ℕ
  pub previous_hash : Option String
  pub replayed : List ReplayCell

abbrev pub replay_init : CampaignManifest → Replay
replay_init m = record {
  expected_sequence = 0;
  previous_hash = none;
  replayed = replay_start m.cells;
}

module _ (d : Codec) where
  -- one round of the replay loop
  unfoldable pub replay_event : Replay → EventRow → Result Replay
  replay_event v row = do
    check_readable row.payload_json
    raise_unless (eqb row.columns.sequence v.expected_sequence) sequence_not_contiguous
    raise_unless (same_text? row.columns.previous_event_hash v.previous_hash) chain_broken
    check_payload row.payload_json (event_payload_from_row row)
    raise_unless (row.event_hash == content_hash d (event_payload_from_row row)) hash_differs
    raise_unless (row.event_id == event_id_of (content_hash d (event_payload_from_row row)))
        event_id_differs
    c ← require_replay row.columns.cell_id v.replayed
    raise_unless (same_state c.state row.columns.previous_state) replay_state_differs
    raise_unless (store_allows row.columns.previous_state row.columns.new_state)
        (illegal_transition row.columns.previous_state row.columns.new_state)
    ok (record {
      expected_sequence = suc v.expected_sequence;
      previous_hash = some row.event_hash;
      replayed =
          replay_set row.columns.cell_id row.columns.new_state row.columns.actual_cost v.replayed;
    })

  -- a round, unless an error has broken the loop off
  unfoldable pub next_round : EventRow → Replay × Option Error → Replay × Option Error
  next_round row (v, some e) = (v, some e)
  next_round row (v, none) = elim (replay_event v row) [ ok v' ↦ (v', none) | err e ↦ (v, some e) ]

  -- The loop over the events, oldest first. The journal lists the newest event first, so the
  -- last round is that of the list's head.
  unfoldable pub replay_events : CampaignManifest → List EventRow → Replay × Option Error
  replay_events m [] = (replay_init m, none)
  replay_events m (row ∷ rows) = next_round row (replay_events m rows)

-- `set(stored_rows) == set(states)`
abbrev pub same_keys : List CellRow → List ReplayCell → Bool
same_keys rows cs =
    all (λ (r : CellRow). not (is_none (find_replay r.cell_id cs))) rows
    && all (λ (c : ReplayCell). not (is_none (find_cell c.cell_id rows))) cs

-- a test of a stored row against the replay, which a row that has no replayed cell passes
abbrev pub against : (CellRow → ReplayCell → Bool) → List ReplayCell → CellRow → Bool
against test cs row = elim (find_replay row.cell_id cs) [ none ↦ true | some c ↦ test row c ]

abbrev pub state_agrees : CellRow → ReplayCell → Bool
state_agrees row c = same_state row.state c.state

-- `abs(actual_cost - cost) <= 1e-8`
abbrev pub cost_agrees : CellRow → ReplayCell → Bool
cost_agrees row c = leb row.actual_cost (c.cost + grain) && leb c.cost (row.actual_cost + grain)

-- a leased cell has all four columns of a lease, any other has none
abbrev pub lease_is_clean : CellRow → Bool
lease_is_clean r =
    if is_leased r
    then not (
        is_none r.lease_owner
        || is_none r.lease_token
        || is_none r.leased_at
        || is_none r.lease_expires_at)
    else is_none r.lease_owner
      && is_none r.lease_token
      && is_none r.leased_at
      && is_none r.lease_expires_at

abbrev pub lease_agrees : CellRow → ReplayCell → Bool
lease_agrees row c = lease_is_clean row

unfoldable pub replayed_cost : List ReplayCell → ℕ
replayed_cost [] = 0
replayed_cost (c ∷ cs) = c.cost + replayed_cost cs

abbrev pub is_ok {ℓ} : {A : Type ℓ} → Result A → Bool
is_ok (ok _) = true
is_ok (err _) = false

pub record StoreReconciliation : Type 0 where
  pub valid : Bool
  pub manifest_matches : Bool
  pub event_chain_valid : Bool
  pub cell_state_matches : Bool
  pub cost_matches : Bool
  pub lease_invariants_valid : Bool
  pub event_count : ℕ
  pub replayed : ℕ
  pub stored : ℕ

-- `reconcile_campaign_store`
unfoldable pub reconcile_campaign_store : Codec → CampaignManifest → Store → StoreReconciliation
reconcile_campaign_store d m s =
    let (v, error) = replay_events d m s.events in
    let cs = v.replayed in
    let manifest_matches = is_ok (verify_manifest d m s) in
    let event_chain_valid = is_none error in
    let cell_state_matches = same_keys s.cells cs && all (against state_agrees cs) s.cells in
    let cost_matches = all (against cost_agrees cs) s.cells in
    let lease_invariants_valid = all (against lease_agrees cs) s.cells in
    record {
      valid =
          manifest_matches && event_chain_valid && cell_state_matches && cost_matches
          && lease_invariants_valid;
      manifest_matches = manifest_matches;
      event_chain_valid = event_chain_valid;
      cell_state_matches = cell_state_matches;
      cost_matches = cost_matches;
      lease_invariants_valid = lease_invariants_valid;
      event_count = length s.events;
      replayed = round8 (replayed_cost cs);
      stored = round8 (spent_cost s.cells);
    }
