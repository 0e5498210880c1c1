-- ===== src/Tests/Workers.antt =====
-- The theorems on the campaign worker, at a batch of the small campaign.
use pelican_bench.Base.{ℕ, String, ◌≡◌, ◌↔◌, refl, true, false, none, some, List, [], ◌∷◌}
use pelican_bench.Base.Int.{pos}
use pelican_bench.Base.Dict.{get, put}
use pelican_bench.Campaign.{succeeded}
use pelican_bench.Store.Time.{utc}
use pelican_bench.Store.Money.{finite, round8_ℤ}
use pelican_bench.Store.Result.{Result, ok, err, Error}
use pelican_bench.Store.Tables.{Store, StoreLease}
use pelican_bench.Store.Status.{read_store_events}
use pelican_bench.Store.Reconcile.{reconcile_campaign_store}
use pelican_bench.Store.History.{start}
use pelican_bench.Worker.Outcome.{
  missing, number, Scorecard, RunResult, reported_cost, cost_for_result, terminal_outcome,
}
use pelican_bench.Worker.Records.{
  WorkerCodec, CampaignCellExecution, CampaignWorkerResult, same_execution, same_batch,
  write_immutable, safe_identifier, record_path, batch_path,
}
use pelican_bench.Worker.Beats.{beat}
use pelican_bench.Worker.Settlement.{Adapter, Meanwhile, BatchRequest, World, finished, check_batch}
use pelican_bench.Worker.Batch.{
  count_records, sum_costs, sum_beats, count_beat_errors, settle, execute_lease, execute_leases,
  finish_batch, execute_campaign_batch,
}
use pelican_bench.Worker.Safe.{Orderly, execute_campaign_batch-reconcile}
use pelican_bench.Worker.Summary.{IsSummary, execute_campaign_batch-IsSummary}
use pelican_bench.Worker.Kept.{execute_campaign_batch-get}
use pelican_bench.Worker.Costs.{IsRetained, terminal_outcome-IsRetained}
use pelican_bench.Worker.Files.{StoredRecord, integer}
use pelican_bench.Worker.Reconcile.{
  is_worker_terminal_event, find_key, index_by, pair_errors, key_errors, keys_errors,
  reconcile_records,
}
use pelican_bench.Worker.Audit.{IsReconciled, reconcile_records-IsReconciled}
use pelican_bench.Tests.Samples.{codec, manifest, fresh, run, unary}
use pelican_bench.Tests.Histories.{fresh-IsSound}

unfoldable worker_run {ℓ} : {A : Type ℓ} → A → A
unfolding run get put round8_ℤ reported_cost cost_for_result terminal_outcome same_execution
    same_batch write_immutable safe_identifier record_path batch_path beat check_batch count_records
    sum_costs sum_beats count_beat_errors settle execute_lease execute_leases finish_batch
    execute_campaign_batch read_store_events is_worker_terminal_event find_key index_by pair_errors
    key_errors keys_errors reconcile_records
worker_run a = a

abbrev texts : WorkerCodec
texts = record {
  of_execution = λ p. p.cell_id;
  of_batch = λ p. p.worker_id;
  is_alnum = λ c. true;
  three_digits = unary;
}

abbrev error_text : Error → String
error_text e = "ValueError"

abbrev score_hash : Scorecard → String
score_hash s = s.rest

abbrev adapter : Adapter
adapter = record { model_id = "m1"; model_revision = "r1"; adapter_id = "ADAPTER-1" }

-- a run that gives an artifact which holds the gates, and reports what it cost
abbrev good_result : RunResult
good_result = record {
  run_id = "RUN-1";
  trials =
      record {
        artifact_id = some "ART-1";
        metadata = record {
          actual_cost = missing;
          cost_usd = number (finite (pos 123456));
          cost = missing;
          usage = none;
        };
      }
      ∷ [];
  scorecards =
      record {
        critical_gates =
            ("safe_and_parseable", true)
            ∷ ("nonblank_render", true)
            ∷ ("judge_input_safe", true)
            ∷ [];
        rest = "score";
      }
      ∷ [];
  failures = [];
}

abbrev while_running : StoreLease → Meanwhile
while_running l = record {
  ticks = [];
  stuck = false;
  outcome = finished good_result;
  others = λ (s : Store). s;
  completed_at = utc 2000;
}

abbrev request : BatchRequest
request = record {
  worker_id = "w1";
  limit = 2;
  lease_seconds = 60;
  stage_id = none;
  now = some (utc 1000);
  started_at = utc 1000;
  factory = λ n. unary n;
  heartbeat_interval = none;
}

-- the worker has the task of A1, and not that of A3
abbrev known_tasks : List (String × Unit {0})
known_tasks = ("t1", tt) ∷ []

abbrev world : World
world = record { store = fresh; executions = []; batches = [] }

abbrev batch : Result CampaignWorkerResult × World
batch =
    execute_campaign_batch codec texts manifest error_text score_hash adapter request known_tasks
      while_running world

abbrev states : Result CampaignWorkerResult → List ℕ
states (ok b) = b.leased_cells ∷ b.succeeded ∷ b.quarantined ∷ b.failed ∷ []
states (err _) = []

batch_states : states batch.0 ≡ 2 ∷ 1 ∷ 0 ∷ 1 ∷ []
unfolding worker_run
batch_states = refl

abbrev no_batch : CampaignWorkerResult
no_batch = record {
  payload = record {
    schema_version = "";
    campaign_id = "";
    worker_id = "";
    model_id = "";
    leased_cells = 0;
    succeeded = 0;
    quarantined = 0;
    failed = 0;
    charged_cost = pos 0;
    heartbeat_count = 0;
    heartbeat_failures = 0;
    records = [];
  };
  batch_hash = "";
}

abbrev value_of : Result CampaignWorkerResult → CampaignWorkerResult
value_of (ok b) = b
value_of (err _) = no_batch

calm : (l : StoreLease) → Orderly codec manifest (while_running l)
calm l = record { others = λ s. start; ticks = tt }

execute_campaign_batch-reconcile_example :
    (reconcile_campaign_store codec manifest batch.1.store).valid ≡ true
execute_campaign_batch-reconcile_example =
    execute_campaign_batch-reconcile codec texts manifest error_text score_hash adapter request
      known_tasks while_running world calm fresh-IsSound

batch_ok : batch ≡ (ok (value_of batch.0), batch.1)
unfolding worker_run
batch_ok = refl

execute_campaign_batch-IsSummary_example :
    IsSummary codec texts manifest adapter request world batch.1 (value_of batch.0)
execute_campaign_batch-IsSummary_example =
    execute_campaign_batch-IsSummary codec texts manifest error_text score_hash adapter request
      known_tasks while_running world batch.1 (value_of batch.0) calm fresh-IsSound batch_ok

terminal_outcome-IsRetained_example :
    ((terminal_outcome good_result).state ≡ succeeded) ↔ IsRetained good_result
terminal_outcome-IsRetained_example = terminal_outcome-IsRetained good_result

-- the record of a file
abbrev stored : CampaignCellExecution → StoredRecord
stored x = record {
  campaign_id = some x.campaign_id;
  cell_id = some x.cell_id;
  worker_id = some x.worker_id;
  lease_token = some x.lease_token;
  attempt = integer x.attempt;
  terminal_state = some x.terminal_state;
  terminal_reason = some x.terminal_reason;
  artifact_id = x.artifact_id;
  charged_cost = some (finite x.charged_cost);
  record_hash = some x.record_hash;
}

abbrev stored_all : List CampaignCellExecution → List StoredRecord
stored_all [] = []
stored_all (x ∷ xs) = stored x ∷ stored_all xs

abbrev stored_records : List StoredRecord
stored_records = stored_all (value_of batch.0).records

reconciled : (reconcile_records codec manifest batch.1.store stored_records).valid ≡ true
unfolding worker_run
reconciled = refl

reconcile_records-IsReconciled_example : IsReconciled codec manifest batch.1.store stored_records
reconcile_records-IsReconciled_example =
    reconcile_records-IsReconciled codec manifest batch.1.store stored_records reconciled

abbrev first_record : List CampaignCellExecution → CampaignCellExecution
first_record [] = record {
  payload = record {
    schema_version = "";
    campaign_id = "";
    cell_id = "";
    worker_id = "";
    lease_token = "";
    model_id = "";
    model_revision = "";
    adapter_id = "";
    task_id = "";
    replicate = 0;
    seed = 0;
    terminal_state = succeeded;
    terminal_reason = "";
    charged_cost = pos 0;
    cost_basis = "";
    artifact_id = none;
    run_id = none;
    scorecard_hash = none;
    output_directory = "";
    error_type = none;
    error_message = none;
    heartbeat_count = 0;
    heartbeat_error = none;
    attempt = 0;
  };
  record_hash = "";
}
first_record (x ∷ _) = x

abbrev record_a1 : CampaignCellExecution
record_a1 = first_record (value_of batch.0).records

file_a1 : get (record_path texts record_a1) batch.1.executions ≡ some record_a1
unfolding worker_run
file_a1 = refl

-- a second worker, at a time at which the lease of A3 would have expired
abbrev later_request : BatchRequest
later_request = record request { worker_id = "w2"; now = some (utc 90000000) }

execute_campaign_batch-get_example :
    get
      (record_path texts record_a1)
      (execute_campaign_batch codec texts manifest error_text score_hash adapter later_request
        known_tasks while_running batch.1).1.executions
    ≡ some record_a1
execute_campaign_batch-get_example =
    execute_campaign_batch-get codec texts manifest error_text score_hash adapter later_request
      known_tasks while_running (record_path texts record_a1) record_a1 batch.1 file_a1
