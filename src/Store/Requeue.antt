-- ===== src/Store/Requeue.antt =====
-- `requeue_failed_cell` of src/pelicanbench/campaign_store.py.
use pelican_bench.Base.{String, Option, none, some}
use pelican_bench.Base.Int.{pos}
use pelican_bench.Campaign.{CampaignManifest, ready}
use pelican_bench.Store.Result.{Result, ok, ◌>>=◌, ◌>>◌}
use pelican_bench.Store.Time.{Timestamp}
use pelican_bench.Store.Money.{or_zero}
use pelican_bench.Store.Tables.{Store, CellRow, EventRow, update_cell}
use pelican_bench.Store.Journal.{Codec, EventDraft, insert_event, verify_manifest}
use pelican_bench.Store.Queries.{transaction, require_cell}

pub record RequeueRequest : Type 0 where
  pub cell_id : String
  pub reason : String
  pub worker_id : Option String
  pub now : Timestamp

abbrev pub requeue_draft : RequeueRequest → CellRow → EventDraft
requeue_draft q row = record {
  cell_id = q.cell_id;
  previous_state = row.state;
  new_state = ready;
  occurred_at = q.now;
  worker_id = q.worker_id;
  lease_token = none;
  attempt = row.attempt_count;
  reason = q.reason;
  estimated_cost = or_zero row.estimated_cost;
  actual_cost = pos 0;
  artifact_id = none;
}

-- the UPDATE of `requeue_failed_cell`: the columns of a lease are not among those it sets
abbrev pub requeued_row : RequeueRequest → CellRow → CellRow
requeued_row q r = record r {
  state = ready;
  reason = some q.reason;
  updated_at = q.now;
  artifact_id = none;
}

module _ (d : Codec) (m : CampaignManifest) where
  -- the transaction of `requeue_failed_cell`
  unfoldable pub requeue_body : RequeueRequest → Store → Result (EventRow × Store)
  requeue_body q s = do
    verify_manifest d m s
    row ← require_cell q.cell_id s.cells
    (event, s') ← insert_event d m (requeue_draft q row) s
    ok (event, record s' { cells = update_cell q.cell_id (requeued_row q) s'.cells })

  unfoldable pub requeue_failed_cell : RequeueRequest → Store → Result EventRow × Store
  requeue_failed_cell q = transaction (requeue_body q)
