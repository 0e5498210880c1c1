-- ===== src/Tests/Chains.antt =====
-- The theorems on the portable event chain and on the status, at the sample campaign.
use pelican_bench.Base.{String, ◌≡◌, ◌↔◌, refl, true, false, none, some, List, [], ◌∷◌, ◌++◌}
use pelican_bench.Base.Int.{pos}
use pelican_bench.Base.Lists.{All}
use pelican_bench.Base.Dict.{get, put, collect}
use pelican_bench.Base.Text.{◌^^◌}
use pelican_bench.Campaign.{CampaignCell, succeeded, leased, is_terminal}
use pelican_bench.Store.Result.{Result, ok, err}
use pelican_bench.Store.Time.{utc}
use pelican_bench.Store.Tables.{CellRow}
use pelican_bench.Store.Queries.{spent_cost}
use pelican_bench.Store.Status.{StoreStatus, count_expired, exceeds, campaign_store_status}
use pelican_bench.Store.Complete.{status-complete}
use pelican_bench.Chain.Events.{
  CampaignEvent, ChainPayload, ChainReplay, EventRequest, event_of, payload_of, chain_start,
  replay_chain_event, replay_from, replay_campaign_events, append_campaign_event, last_hash,
}
use pelican_bench.Chain.Leasing.{
  ChainLeaseRequest, lease_ready_cells, select_cell, select_cells, append_leases, next_ready_cells,
  cell_before, active_by_model, chain_reserved,
}
use pelican_bench.Chain.Append.{appended}
use pelican_bench.Chain.Extension.{Grown, append_campaign_event-Grown}
use pelican_bench.Chain.Selected.{BatchLeased, lease_ready_cells-BatchLeased}
use pelican_bench.Tests.Samples.{codec, manifest, unary, run}
use pelican_bench.Tests.Histories.{finished}

abbrev chain_hash : ChainPayload → String
chain_hash p = "h" ^^ unary p.sequence

-- all that a run of the chain computes with
unfoldable chain_run {ℓ} : {A : Type ℓ} → A → A
unfolding run get put collect replay_chain_event replay_from replay_campaign_events
    append_campaign_event last_hash lease_ready_cells select_cell select_cells append_leases
    next_ready_cells cell_before active_by_model chain_reserved
chain_run a = a

abbrev batch : ChainLeaseRequest
batch = record { worker_id = "w1"; limit = 3; stage_id = none; model_id = none }

abbrev pair_of :
    Result (List CampaignEvent × List CampaignCell) → List CampaignEvent × List CampaignCell
pair_of (ok p) = p
pair_of (err _) = ([], [])

-- A1 (50) and A3 (20) are leased, and fit the budget of 100; A2 (60) does not
abbrev leased_batch : List CampaignEvent × List CampaignCell
leased_batch = pair_of (lease_ready_cells chain_hash manifest [] batch)

abbrev cell_ids : List CampaignCell → List String
cell_ids [] = []
cell_ids (c ∷ cells) = c.cell_id ∷ cell_ids cells

leased_ids : cell_ids leased_batch.1 ≡ "A1" ∷ "A3" ∷ []
unfolding chain_run
leased_ids = refl

lease_ready_cells-BatchLeased_example :
    BatchLeased chain_hash manifest batch
      (chain_start manifest)
      (pos 100)
      leased_batch.0
      leased_batch.1
unfolding chain_run
lease_ready_cells-BatchLeased_example =
    lease_ready_cells-BatchLeased chain_hash manifest batch [] leased_batch.0 leased_batch.1
      (chain_start manifest) (pos 100) refl refl refl

abbrev success : EventRequest
success = record {
  cell_id = "A1";
  new_state = succeeded;
  reason = "canonical-artifact-retained";
  cost = pos 40;
  artifact_id = some "ART-1";
}

abbrev replay_of : Result ChainReplay → ChainReplay
replay_of (ok v) = v
replay_of (err _) = chain_start manifest

success_ok :
    append_campaign_event chain_hash manifest leased_batch.0 success
    ≡ ok (appended chain_hash success leased leased_batch.0)
unfolding chain_run
success_ok = refl

append_campaign_event-Grown_example :
    Grown chain_hash manifest success leased_batch.0
      (appended chain_hash success leased leased_batch.0)
append_campaign_event-Grown_example =
    append_campaign_event-Grown chain_hash manifest success leased_batch.0
      (appended chain_hash success leased leased_batch.0) success_ok

-- the chain with the success of A1
abbrev success_event : CampaignEvent
success_event = event_of chain_hash (payload_of success leased leased_batch.0)

abbrev after_success : ChainReplay
after_success =
    replay_of (replay_campaign_events chain_hash manifest (leased_batch.0 ++ success_event ∷ []))

abbrev blank_status : StoreStatus
blank_status = record {
  count = λ c. 0;
  cell_count = 0;
  event_count = 0;
  spent_cost = 0;
  reserved_cost = pos 0;
  hard_budget = none;
  remaining_budget = none;
  active_leases = 0;
  expired_leases = 0;
  terminal_cells = 0;
  complete = true;
  budget_exceeded = false;
}

abbrev status_of : Result StoreStatus → StoreStatus
status_of (ok v) = v
status_of (err _) = blank_status

-- the status after A1 has succeeded
abbrev shown : StoreStatus
shown = status_of (campaign_store_status codec manifest (utc 3000) finished)

shown_ok : campaign_store_status codec manifest (utc 3000) finished ≡ ok shown
unfolding run campaign_store_status count_expired
shown_ok = refl

status-complete_example : (shown.complete ≡ true) ↔ (
    All (λ (r : CellRow). is_terminal r.state ≡ true) finished.cells
    × (exceeds (spent_cost finished.cells) manifest.hard_budget ≡ false))
status-complete_example = status-complete codec manifest (utc 3000) finished shown shown_ok
