-- ===== src/Chain/Events.antt =====
-- `CampaignEvent`, `replay_campaign_events` and `append_campaign_event` of
-- src/pelicanbench/campaign.py. Costs are finite numbers, in units of 10 ^ -12 of the currency.
use pelican_bench.Base.{
  ℕ, suc, String, Bool, true, false, Option, none, some, List, [], ◌∷◌, ◌++◌, ◌==◌, eqb, map,
}
use pelican_bench.Base.Int.{ℤ, pos, ◌+ℤ◌, ltb_ℤ}
use pelican_bench.Base.Lists.{length}
use pelican_bench.Base.Dict.{get, put, collect}
use pelican_bench.Base.Text.{is_blank, is_empty}
use pelican_bench.Campaign.{
  CampaignManifest, CampaignCell, CellState, succeeded, same_state, chain_allows,
}
use pelican_bench.Store.Result.{
  Result, ok, err, ◌>>=◌, ◌>>◌, raise_if, raise_unless, sequence_not_contiguous, chain_broken,
  unknown_cell, replay_state_differs, illegal_transition, negative_cost, hash_differs,
  reason_required, artifact_required,
}
use pelican_bench.Store.Tables.{same_text?}

-- the payload that is hashed
pub record ChainPayload : Type 0 where
  pub schema_version : String
  pub sequence : ℕ
  pub cell_id : String
  pub previous_state : CellState
  pub new_state : CellState
  pub reason : String
  pub cost : ℤ
  pub artifact_id : Option String
  pub previous_event_hash : Option String

pub record CampaignEvent : Type 0 where
  pub payload : ChainPayload
  pub event_hash : String

-- the variables of the replay loop
pub record ChainReplay : Type 0 where
  pub expected_sequence : ℕ
  pub previous_hash : Option String
  pub states : List (String × CellState)
  pub total_cost : ℤ

-- `_initial_states`
abbrev pub initial_states : CampaignManifest → List (String × CellState)
initial_states m = collect [] (map (λ (c : CampaignCell). (c.cell_id, c.state)) m.cells)

abbrev pub chain_start : CampaignManifest → ChainReplay
chain_start m = record {
  expected_sequence = 0;
  previous_hash = none;
  states = initial_states m;
  total_cost = pos 0;
}

-- `states[cell_id]`, after the test that it is there
abbrev pub state_of : String → List (String × CellState) → Result CellState
state_of k states = elim (get k states) [ none ↦ err unknown_cell | some state ↦ ok state ]

abbrev pub next_replay : CampaignEvent → ChainReplay → ChainReplay
next_replay e v = record {
  expected_sequence = suc v.expected_sequence;
  previous_hash = some e.event_hash;
  states = put e.payload.cell_id e.payload.new_state v.states;
  total_cost = v.total_cost +ℤ e.payload.cost;
}

-- `values[-1].event_hash if values else None`
unfoldable pub last_hash : List CampaignEvent → Option String
last_hash [] = none
last_hash (e ∷ []) = some e.event_hash
last_hash (_ ∷ e ∷ events) = last_hash (e ∷ events)

abbrev pub lacks_artifact : CellState → Option String → Bool
lacks_artifact succeeded none = true
lacks_artifact succeeded (some a) = is_empty a
lacks_artifact _ _ = false

-- the arguments of `append_campaign_event`
pub record EventRequest : Type 0 where
  pub cell_id : String
  pub new_state : CellState
  pub reason : String
  pub cost : ℤ
  pub artifact_id : Option String

abbrev pub payload_of : EventRequest → CellState → List CampaignEvent → ChainPayload
payload_of q previous_state events = record {
  schema_version = "1.0.0";
  sequence = length events;
  cell_id = q.cell_id;
  previous_state = previous_state;
  new_state = q.new_state;
  reason = q.reason;
  cost = q.cost;
  artifact_id = q.artifact_id;
  previous_event_hash = last_hash events;
}

-- `hash` is `content_hash` (src/pelicanbench/io.py) of a payload: SHA-256 of its canonical JSON
module _ (hash : ChainPayload → String) where
  -- one round of the replay loop
  unfoldable pub replay_chain_event : ChainReplay → CampaignEvent → Result ChainReplay
  replay_chain_event v e = do
    raise_unless (eqb e.payload.sequence v.expected_sequence) sequence_not_contiguous
    raise_unless (same_text? e.payload.previous_event_hash v.previous_hash) chain_broken
    current ← state_of e.payload.cell_id v.states
    raise_unless (same_state current e.payload.previous_state) replay_state_differs
    raise_unless (chain_allows current e.payload.new_state)
        (illegal_transition current e.payload.new_state)
    raise_if (ltb_ℤ e.payload.cost (pos 0)) negative_cost
    raise_unless (e.event_hash == hash e.payload) hash_differs
    ok (next_replay e v)

  unfoldable pub replay_from : ChainReplay → List CampaignEvent → Result ChainReplay
  replay_from v [] = ok v
  replay_from v (e ∷ events) = do v' ← replay_chain_event v e; replay_from v' events

  -- `replay_campaign_events`, whose result is the dict `states` and `total_cost` of the variables
  unfoldable pub replay_campaign_events : CampaignManifest → List CampaignEvent → Result ChainReplay
  replay_campaign_events m events = replay_from (chain_start m) events

  abbrev pub event_of : ChainPayload → CampaignEvent
  event_of p = record { payload = p; event_hash = hash p }

  unfoldable pub append_campaign_event :
      CampaignManifest → List CampaignEvent → EventRequest → Result (List CampaignEvent)
  append_campaign_event m events q = do
    v ← replay_campaign_events m events
    previous_state ← state_of q.cell_id v.states
    raise_unless (chain_allows previous_state q.new_state)
        (illegal_transition previous_state q.new_state)
    raise_if (ltb_ℤ q.cost (pos 0)) negative_cost
    raise_if (is_blank q.reason) reason_required
    raise_if (lacks_artifact q.new_state q.artifact_id) artifact_required
    ok (events ++ event_of (payload_of q previous_state events) ∷ [])
