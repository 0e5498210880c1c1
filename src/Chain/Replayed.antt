-- ===== src/Chain/Replayed.antt =====
-- That the events which a chain of src/pelicanbench/campaign.py replays are those that
-- `append_campaign_event` makes.
use pelican_bench.Base.{String, ◌≡◌, true, false, some}
use pelican_bench.Base.Int.{pos, ltb_ℤ}
use pelican_bench.Base.Dict.{get}
use pelican_bench.Campaign.{chain_allows}
use pelican_bench.Store.Result.{Result}
use pelican_bench.Chain.Events.{CampaignEvent, ChainPayload, ChainReplay, EventRequest}

-- the call that asks for an event
abbrev pub request_of : CampaignEvent → EventRequest
request_of e = record {
  cell_id = e.payload.cell_id;
  new_state = e.payload.new_state;
  reason = e.payload.reason;
  cost = e.payload.cost;
  artifact_id = e.payload.artifact_id;
}

module _ (hash : ChainPayload → String) where
  -- what the replay has found out of an event that it accepts
  record Accepted (v : ChainReplay) (e : CampaignEvent) : Type 0 where
    pub sequence : e.payload.sequence ≡ v.expected_sequence
    pub link : e.payload.previous_event_hash ≡ v.previous_hash
    pub known : get e.payload.cell_id v.states ≡ some e.payload.previous_state
    pub allowed : chain_allows e.payload.previous_state e.payload.new_state ≡ true
    pub cost : ltb_ℤ e.payload.cost (pos 0) ≡ false
    pub sealed : e.event_hash ≡ hash e.payload
