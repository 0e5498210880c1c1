-- ===== src/Tests/Samples.antt =====
-- A small campaign of src/pelicanbench/campaign.py, and its store.
use pelican_bench.Base.{ℕ, zero, suc, String, true, Option, none, some, List, [], ◌∷◌, ◌≡◌, refl}
use pelican_bench.Base.Int.{ℤ, pos}
use pelican_bench.Base.Int.{◌+ℤ◌, ◌-ℤ◌}
use pelican_bench.Base.Text.{◌^^◌, strip}
use pelican_bench.Campaign.{CampaignManifest, CampaignCell, CellState, ready, blocked_price}
use pelican_bench.Store.Time.{utc, parse_utc, add_seconds}
use pelican_bench.Store.Result.{Result, ok, err}
use pelican_bench.Store.Money.{round8}
use pelican_bench.Store.Tables.{
  Store, StoreLease, find_cell, update_cell, same_columns, same_payload,
}
use pelican_bench.Store.Journal.{
  Codec, insert_event, verify_manifest, event_row, event_columns, is_recorded,
}
use pelican_bench.Store.Queries.{row_before, spent_cost, reserved_cost, active_leases}
use pelican_bench.Store.Reclaim.{
  reclaim_row, reclaim_rows, reclaim_expired, reclaim_body, reclaim_expired_leases,
}
use pelican_bench.Store.Lease.{
  LeaseRequest, token_loop, is_used_token, grant, lease_row, lease_rows, lease_body, check_request,
  lease_campaign_cells,
}
use pelican_bench.Store.Holder.{
  owned_row, heartbeat_body, heartbeat_campaign_lease, complete_body, complete_campaign_lease,
}
use pelican_bench.Store.Requeue.{requeue_body, requeue_failed_cell}
use pelican_bench.Store.Initialise.{
  insert_cells, initialise_body, initialise_campaign_store, no_tables,
}
use pelican_bench.Store.Reconcile.{
  find_replay, replay_set, replay_event, next_round, replay_events, replayed_cost,
  reconcile_campaign_store,
}

abbrev pub unary : ℕ → String
unary zero = ""
unary (suc n) = "x" ^^ unary n

-- digests that tell the events of a short journal apart
abbrev pub codec : Codec
codec = record {
  of_manifest = λ m. m.campaign_id;
  of_event = λ p. unary p.columns.sequence;
  budget_json = λ b. "100";
  count_text = λ n. unary n;
}

abbrev pub cell : String → String → Option ℤ → CellState → CampaignCell
cell id task estimate state = record {
  cell_id = id;
  stage_id = "pilot";
  model_id = "m1";
  task_id = task;
  replicate = 0;
  seed = 7;
  state = state;
  estimated_cost = estimate;
}

abbrev pub manifest : CampaignManifest
manifest = record {
  schema_version = "1.0.0";
  generated_at = "2026-08-01T00:00:00Z";
  campaign_id = "PCAMP-1";
  prospective_plan_hash = "sha256:p";
  task_identity_commitment = "sha256:t";
  currency = "USD";
  hard_budget = some (pos 100);
  max_parallel_per_model = 2;
  policy_hash = "sha256:q";
  budget_gate = "pass";
  estimated_cost = pos 130;
  estimated_cost_with_reserve = pos 150;
  unknown_cost_cells = 0;
  cells =
      cell "A2" "t2" (some (pos 60)) ready
      ∷ cell "A1" "t1" (some (pos 50)) ready
      ∷ cell "A3" "t3" (some (pos 20)) ready
      ∷ cell "A4" "t4" none blocked_price
      ∷ [];
  shards = [];
}

-- all that a run of the store computes with
unfoldable pub run {ℓ} : {A : Type ℓ} → A → A
unfolding strip parse_utc add_seconds round8 find_cell update_cell same_columns same_payload
    insert_event verify_manifest event_row event_columns is_recorded row_before spent_cost
    reserved_cost active_leases reclaim_row reclaim_rows reclaim_expired reclaim_body
    reclaim_expired_leases token_loop is_used_token grant lease_row lease_rows lease_body
    check_request lease_campaign_cells owned_row heartbeat_body heartbeat_campaign_lease
    complete_body complete_campaign_lease requeue_body requeue_failed_cell insert_cells
    initialise_body initialise_campaign_store find_replay replay_set replay_event next_round
    replay_events replayed_cost reconcile_campaign_store ◌+ℤ◌ ◌-ℤ◌
run a = a

abbrev pub fresh : Store
fresh = (initialise_campaign_store codec manifest true "2026-08-01T00:00:00Z" (utc 0) no_tables).1

-- a worker that asks for `limit` cells at the time `now`
abbrev pub ask : String → ℕ → ℕ → LeaseRequest
ask worker limit now = record {
  worker_id = worker;
  limit = limit;
  lease_seconds = 60;
  stage_id = none;
  model_id = none;
  now = utc now;
  factory = λ n. "tok" ^^ worker ^^ unary n;
}

abbrev pub leases_of : Result (List StoreLease) → List StoreLease
leases_of (ok ls) = ls
leases_of (err _) = []

-- the first worker leases A1 (50); A2 (60) would pass the budget of 100, and A3 (20) fits
abbrev pub asked : Result (List StoreLease) × Store
asked = lease_campaign_cells codec manifest (ask "w1" 3 1000) fresh

abbrev pub ids : List StoreLease → List String
ids [] = []
ids (l ∷ ls) = l.cell_id ∷ ids ls

asked_ids : ids (leases_of asked.0) ≡ "A1" ∷ "A3" ∷ []
unfolding run
asked_ids = refl
