-- ===== src/Worker/Batch.antt =====
-- `execute_campaign_batch` of src/pelicanbench/campaign_worker.py, as a client of the store's operations.
use pelican_bench.Base.{ℕ, ◌+◌, String, not, none, some, List, [], ◌∷◌, ◌&&◌, is_none}
use pelican_bench.Base.Int.{ℤ, pos, ◌+ℤ◌, ltb_ℤ}
use pelican_bench.Base.Lists.{length}
use pelican_bench.Base.Dict.{get}
use pelican_bench.Base.Text.{◌^^◌}
use pelican_bench.Campaign.{CampaignManifest, CellState, succeeded, quarantined, failed, same_state}
use pelican_bench.Store.Result.{Result, ok, err, Error}
use pelican_bench.Store.Money.{round8_ℤ}
use pelican_bench.Store.Tables.{StoreLease}
use pelican_bench.Store.Journal.{Codec}
use pelican_bench.Store.Lease.{lease_campaign_cells}
use pelican_bench.Store.Holder.{complete_campaign_lease}
use pelican_bench.Store.Queries.{one_if}
use pelican_bench.Worker.Outcome.{Scorecard}
use pelican_bench.Worker.Records.{
  CampaignCellExecution, WorkerResultPayload, CampaignWorkerResult, WorkerCodec, same_execution,
  same_batch, write_immutable, with_hash, record_path, batch_path, safe_identifier,
}
use pelican_bench.Worker.Beats.{HeartbeatResult, beaten, stopped}
use pelican_bench.Worker.Settlement.{
  Adapter, BatchRequest, Meanwhile, RunOutcome, Settlement, World, batch_lease, check_batch,
  completion_of, crashed, crashed_run, finished, finished_run, heartbeat_interval_of, missing_task,
  execution_payload, time_or,
}

-- `states.count(state)`
unfoldable pub count_records : CellState → List CampaignCellExecution → ℕ
count_records state [] = 0
count_records state (x ∷ xs) = one_if (same_state x.terminal_state state) + count_records state xs

unfoldable pub sum_costs : List CampaignCellExecution → ℤ
sum_costs [] = pos 0
sum_costs (x ∷ xs) = x.charged_cost +ℤ sum_costs xs

unfoldable pub sum_beats : List CampaignCellExecution → ℕ
sum_beats [] = 0
sum_beats (x ∷ xs) = x.heartbeat_count + sum_beats xs

unfoldable pub count_beat_errors : List CampaignCellExecution → ℕ
count_beat_errors [] = 0
count_beat_errors (x ∷ xs) = one_if (not (is_none x.heartbeat_error)) + count_beat_errors xs

-- the summary of the batch
abbrev pub batch_payload :
    CampaignManifest → Adapter → String → List CampaignCellExecution → WorkerResultPayload
batch_payload m a worker records = record {
  schema_version = "1.0.0";
  campaign_id = m.campaign_id;
  worker_id = worker;
  model_id = a.model_id;
  leased_cells = length records;
  succeeded = count_records succeeded records;
  quarantined = count_records quarantined records;
  failed = count_records failed records;
  charged_cost = round8_ℤ (sum_costs records);
  heartbeat_count = sum_beats records;
  heartbeat_failures = count_beat_errors records;
  records = records;
}

-- `tasks` are the ids in `task_map`; `error_text` and `hash` are the texts and digests that the records
-- hold; `meanwhile` is what happens while a lease is in hand.
module _ (d : Codec) (w : WorkerCodec) (m : CampaignManifest) (error_text : Error → String)
    (hash : Scorecard → String) (a : Adapter) (q : BatchRequest) (tasks : List (String × Unit {0}))
    (meanwhile : StoreLease → Meanwhile) where
  -- `cell_relative`
  abbrev pub cell_directory : StoreLease → String
  cell_directory lease =
      "cells/" ^^ safe_identifier w lease.cell_id ^^ "/attempt-" ^^ w.three_digits lease.attempt

  abbrev pub settlement_of : StoreLease → RunOutcome → Settlement
  settlement_of lease (finished result) = finished_run hash lease (cell_directory lease) result
  settlement_of lease (crashed kind message) =
      crashed_run q.worker_id lease (cell_directory lease) kind message

  -- the completion, the record and its file
  unfoldable pub settle :
      StoreLease → Settlement → HeartbeatResult → World → Result CampaignCellExecution × World
  settle lease x beats world =
      let now = time_or q.now (meanwhile lease).completed_at in
      let (answer, s) =
        complete_campaign_lease d m (completion_of q.worker_id lease x now)
          ((meanwhile lease).others world.store) in
      let execution = with_hash w (execution_payload m a lease x beats) in
      elim answer [
        | err e ↦ (err e, record world { store = s })
        | ok _ ↦
            elim (write_immutable same_execution (record_path w execution) execution
              world.executions) [
                | err e ↦ (err e, record world { store = s })
                | ok files ↦ (ok execution, record world { store = s; executions = files })
              ]
      ]

  -- one round of the loop
  unfoldable pub execute_lease : StoreLease → World → Result CampaignCellExecution × World
  execute_lease lease world = elim (get lease.task_id tasks) [
    | none ↦
        settle lease (missing_task q.worker_id lease) (record { count = 0; error = none }) world
    | some _ ↦
        let running = ltb_ℤ (pos 0) (heartbeat_interval_of q) in
        let during = meanwhile lease in
        let b = beaten d m error_text lease q.lease_seconds running during.ticks world.store in
        settle lease (settlement_of lease during.outcome)
          (stopped d m error_text lease q.lease_seconds (running && during.stuck) b)
          (record world { store = b.store })
  ]

  unfoldable pub execute_leases :
      List StoreLease → World → Result (List CampaignCellExecution) × World
  execute_leases [] world = (ok [], world)
  execute_leases (lease ∷ leases) world =
      let (answer, world₁) = execute_lease lease world in
      let (rest, world₂) = execute_leases leases world₁ in
      elim answer [
        | err e ↦ (err e, world₁)
        | ok x ↦ elim rest [ err e ↦ (err e, world₂) | ok xs ↦ (ok (x ∷ xs), world₂) ]
      ]

  -- the summary and its file
  unfoldable pub finish_batch :
      List CampaignCellExecution → World → Result CampaignWorkerResult × World
  finish_batch records world =
      let p = batch_payload m a q.worker_id records in
      let b : CampaignWorkerResult = record {
        payload = p;
        batch_hash = "sha256:" ^^ w.of_batch p;
      } in
      elim (write_immutable same_batch (batch_path w b) b world.batches) [
        | err e ↦ (err e, world)
        | ok files ↦ (ok b, record world { batches = files })
      ]

  unfoldable pub execute_campaign_batch : World → Result CampaignWorkerResult × World
  execute_campaign_batch world = elim (check_batch q) [
    | err e ↦ (err e, world)
    | ok _ ↦
        let (answer, s) = lease_campaign_cells d m (batch_lease q a) world.store in
        elim answer [
          | err e ↦ (err e, record world { store = s })
          | ok leases ↦
              let (done, world₁) = execute_leases leases (record world { store = s }) in
              elim done [ err e ↦ (err e, world₁) | ok records ↦ finish_batch records world₁ ]
        ]
  ]
