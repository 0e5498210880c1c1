-- ===== src/Chain/Extension.antt =====
-- What an append to the event chain (`append_campaign_event`, src/pelicanbench/campaign.py) does to what
-- the chain replays to.
use pelican_bench.Base.{
  String, ◌≡◌, ◌≢◌, refl, true, false, some, List, [], ◌∷◌, ◌++◌, ◌==◌, arith, eq_iff,
}
use pelican_bench.Base.Int.{◌+ℤ◌}
use pelican_bench.Base.Lists.{length}
use pelican_bench.Base.Dict.{get, get-put_self, get-put_ne}
use pelican_bench.Campaign.{CampaignManifest, CellState, chain_allows}
use pelican_bench.Store.Result.{ok}
use pelican_bench.Chain.Events.{
  CampaignEvent, ChainPayload, ChainReplay, EventRequest, last_hash, event_of, payload_of,
  next_replay, replay_campaign_events, append_campaign_event,
}
use pelican_bench.Chain.Append.{append-Appended}

-- The event of a call of `append_campaign_event`.
pub record Tells (hash : ChainPayload → String) (q : EventRequest) (previous_state : CellState)
    (events : List CampaignEvent) (event : CampaignEvent) : Type 0 where
  pub sequence : event.payload.sequence ≡ length events
  pub link : event.payload.previous_event_hash ≡ last_hash events
  pub sealed : event.event_hash ≡ hash event.payload
  pub cell : event.payload.cell_id ≡ q.cell_id
  pub from : event.payload.previous_state ≡ previous_state
  pub to : event.payload.new_state ≡ q.new_state
  pub reason : event.payload.reason ≡ q.reason
  pub cost : event.payload.cost ≡ q.cost
  pub artifact : event.payload.artifact_id ≡ q.artifact_id

-- How a chain has grown by a call, and what the two chains replay to.
pub record Grown (hash : ChainPayload → String) (m : CampaignManifest) (q : EventRequest)
    (events events' : List CampaignEvent) : Type 0 where
  pub before : ChainReplay
  pub after : ChainReplay
  pub replayed_before : replay_campaign_events hash m events ≡ ok before
  pub replayed_after : replay_campaign_events hash m events' ≡ ok after
  pub previous_state : CellState
  pub event : CampaignEvent
  pub result : events' ≡ events ++ event ∷ []
  pub told : Tells hash q previous_state events event
  pub known : get q.cell_id before.states ≡ some previous_state
  pub allowed : chain_allows previous_state q.new_state ≡ true
  pub state : get q.cell_id after.states ≡ some q.new_state
  pub others : (k : String) → k ≢ q.cell_id → get k after.states ≡ get k before.states
  pub total : after.total_cost ≡ before.total_cost +ℤ q.cost

differs : (j k : String) → j ≢ k → (k == j) ≡ false
differs j k ne = ground (arith, eq_iff k j)

-- An append that returns has put one event behind the events that it was given, with the next sequence
-- number, the hash of the one before, its own hash, and the cell, state, reason, cost and artifact of the
-- call. Both chains replay. The cell was in a state from which the new one may follow, and is in the new
-- one after, every other cell's state is as before, and the total cost is higher by the cost.
pub append_campaign_event-Grown :
    (hash : ChainPayload → String) (m : CampaignManifest) (q : EventRequest)
    (events events' : List CampaignEvent)
    → append_campaign_event hash m events q ≡ ok events'
    → Grown hash m q events events'
append_campaign_event-Grown hash m q events events' h =
    let a = append-Appended hash m q events events' h in
    let e = event_of hash (payload_of q a.previous_state events) in
    record {
      before = a.before;
      after = next_replay e a.before;
      replayed_before = a.replayed;
      replayed_after = a.after;
      previous_state = a.previous_state;
      event = e;
      result = a.result;
      told = record {
        sequence = refl;
        link = refl;
        sealed = refl;
        cell = refl;
        from = refl;
        to = refl;
        reason = refl;
        cost = refl;
        artifact = refl;
      };
      known = a.acceptable.known;
      allowed = a.acceptable.allowed;
      state = get-put_self q.cell_id q.new_state a.before.states;
      others = λ k ne. get-put_ne k q.cell_id q.new_state a.before.states (differs k q.cell_id ne);
      total = refl;
    }
