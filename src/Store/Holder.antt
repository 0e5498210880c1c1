-- ===== src/Store/Holder.antt =====
-- `heartbeat_campaign_lease` and `complete_campaign_lease` of src/pelicanbench/campaign_store.py:
-- what the holder of a lease may do with it.
use pelican_bench.Base.{
  ℕ, ◌+◌, String, Bool, true, false, not, Option, none, some, if◌then◌else◌, ltb, leb, ◌==◌, ◌&&◌,
}
use pelican_bench.Base.Int.{pos, ltb_ℤ, pos_part}
use pelican_bench.Base.Text.{◌^^◌}
use pelican_bench.Campaign.{
  CampaignManifest, CellState, leased, ready, succeeded, failed, quarantined, cancelled,
}
use pelican_bench.Store.Result.{
  Result, ok, err, ◌>>=◌, ◌>>◌, raise_if, raise_unless, extend_not_positive, not_leased,
  token_mismatch, lease_expired, unsupported_completion, cost_not_finite,
}
use pelican_bench.Store.Time.{Timestamp, parse_utc, format_utc, add_seconds}
use pelican_bench.Store.Money.{Amount, finite, infinite, nan, or_zero}
use pelican_bench.Store.Tables.{Store, CellRow, EventRow, StoreLease, is_leased, update_cell}
use pelican_bench.Store.Journal.{Codec, EventDraft, insert_event, verify_manifest}
use pelican_bench.Store.Queries.{transaction, parse_column, text_of, require_cell}

-- `max` of two instants
abbrev pub later : ℕ → ℕ → ℕ
later a b = if leb b a then a else b

-- The checks that both operations make first, in order: the cell is known and leased, and the caller
-- holds it. The answer is the row and its expiry.
unfoldable pub owned_row : String → String → String → Store → Result (CellRow × ℕ)
owned_row cell_id worker_id lease_token s = do
  row ← require_cell cell_id s.cells
  raise_unless (is_leased row) not_leased
  raise_unless ((text_of row.lease_owner == worker_id) && (text_of row.lease_token == lease_token))
      token_mismatch
  expiry ← parse_column row.lease_expires_at
  ok (row, expiry)

pub record HeartbeatRequest : Type 0 where
  pub cell_id : String
  pub worker_id : String
  pub lease_token : String
  pub extend_seconds : ℕ
  pub now : Timestamp

abbrev pub heartbeat_reason : String → String
heartbeat_reason worker = "lease-heartbeat:" ^^ worker

abbrev pub heartbeat_draft : HeartbeatRequest → CellRow → EventDraft
heartbeat_draft q row = record {
  cell_id = q.cell_id;
  previous_state = leased;
  new_state = leased;
  occurred_at = q.now;
  worker_id = some q.worker_id;
  lease_token = some q.lease_token;
  attempt = row.attempt_count;
  reason = heartbeat_reason q.worker_id;
  estimated_cost = or_zero row.estimated_cost;
  actual_cost = pos 0;
  artifact_id = none;
}

-- the UPDATE of `heartbeat_campaign_lease`
abbrev pub extended_row : HeartbeatRequest → Timestamp → CellRow → CellRow
extended_row q expires_at r = record r {
  lease_expires_at = some expires_at;
  reason = some (heartbeat_reason q.worker_id);
  updated_at = q.now;
}

-- `str(row["leased_at"])`
abbrev pub time_of : Option Timestamp → Timestamp
time_of none = Timestamp.unreadable "None"
time_of (some t) = t

abbrev pub extended_lease : HeartbeatRequest → Timestamp → CellRow → StoreLease
extended_lease q expires_at row = record {
  cell_id = q.cell_id;
  stage_id = row.stage_id;
  model_id = row.model_id;
  task_id = row.task_id;
  replicate = row.replicate;
  seed = row.seed;
  worker_id = q.worker_id;
  lease_token = q.lease_token;
  leased_at = time_of row.leased_at;
  lease_expires_at = expires_at;
  attempt = row.attempt_count;
  estimated_cost = or_zero row.estimated_cost;
}

-- the arguments of `complete_campaign_lease`
pub record Completion : Type 0 where
  pub cell_id : String
  pub worker_id : String
  pub lease_token : String
  pub new_state : CellState
  pub reason : String
  pub actual_cost : Amount
  pub artifact_id : Option String
  pub now : Timestamp

-- `new_state in {"ready", "succeeded", "failed", "quarantined", "cancelled"}`
abbrev pub is_completion : CellState → Bool
is_completion ready = true
is_completion succeeded = true
is_completion failed = true
is_completion quarantined = true
is_completion cancelled = true
is_completion _ = false

-- `if not math.isfinite(actual_cost) or actual_cost < 0: raise`
abbrev pub finite_cost : Amount → Result ℕ
finite_cost (finite c) = if ltb_ℤ c (pos 0) then err cost_not_finite else ok (pos_part c)
finite_cost infinite = err cost_not_finite
finite_cost nan = err cost_not_finite

abbrev pub completion_draft : Completion → ℕ → CellRow → EventDraft
completion_draft q cost row = record {
  cell_id = q.cell_id;
  previous_state = leased;
  new_state = q.new_state;
  occurred_at = q.now;
  worker_id = some q.worker_id;
  lease_token = some q.lease_token;
  attempt = row.attempt_count;
  reason = q.reason;
  estimated_cost = or_zero row.estimated_cost;
  actual_cost = pos cost;
  artifact_id = q.artifact_id;
}

-- the UPDATE of `complete_campaign_lease`
abbrev pub completed_row : Completion → ℕ → CellRow → CellRow
completed_row q cost r = record r {
  state = q.new_state;
  actual_cost = r.actual_cost + cost;
  artifact_id = q.artifact_id;
  reason = some q.reason;
  lease_owner = none;
  lease_token = none;
  leased_at = none;
  lease_expires_at = none;
  updated_at = q.now;
}

module _ (d : Codec) (m : CampaignManifest) where
  -- the transaction of `heartbeat_campaign_lease`
  unfoldable pub heartbeat_body : HeartbeatRequest → ℕ → Store → Result (StoreLease × Store)
  heartbeat_body q now_value s = do
    verify_manifest d m s
    (row, expiry) ← owned_row q.cell_id q.worker_id q.lease_token s
    raise_if (leb expiry now_value) lease_expired
    renewal_target ← add_seconds now_value q.extend_seconds
    let extended_expiry = format_utc (later expiry renewal_target)
    (_, s') ← insert_event d m (heartbeat_draft q row) s
    ok (
      extended_lease q extended_expiry row,
      record s' { cells = update_cell q.cell_id (extended_row q extended_expiry) s'.cells },
    )

  unfoldable pub heartbeat_campaign_lease : HeartbeatRequest → Store → Result StoreLease × Store
  heartbeat_campaign_lease q s =
      if ltb q.extend_seconds 1 then (err extend_not_positive, s) else elim (parse_utc q.now) [
        | err e ↦ (err e, s)
        | ok now_value ↦ transaction (heartbeat_body q now_value) s
      ]

  -- the transaction of `complete_campaign_lease`
  unfoldable pub complete_body : Completion → ℕ → Store → Result (EventRow × Store)
  complete_body q cost s = do
    verify_manifest d m s
    (row, expiry) ← owned_row q.cell_id q.worker_id q.lease_token s
    now_value ← parse_utc q.now
    raise_if (leb expiry now_value) lease_expired
    (event, s') ← insert_event d m (completion_draft q cost row) s
    ok (event, record s' { cells = update_cell q.cell_id (completed_row q cost) s'.cells })

  unfoldable pub complete_campaign_lease : Completion → Store → Result EventRow × Store
  complete_campaign_lease q s =
      if not (is_completion q.new_state)
      then (err unsupported_completion, s)
      else elim (finite_cost q.actual_cost) [
        | err e ↦ (err e, s)
        | ok cost ↦ transaction (complete_body q cost) s
      ]
