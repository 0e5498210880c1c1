-- ===== src/Worker/Settlement.antt =====
-- The lease in hand of `execute_campaign_batch` (src/pelicanbench/campaign_worker.py): what it is given
-- and how its lease is settled.
use pelican_bench.Base.{
  ℕ, ◌*◌, ◌/◌, String, Bool, true, false, not, Option, none, some, List, [], ◌∷◌, if◌then◌else◌,
  leb, ltb, ◌&&◌, ◌||◌, is_none,
}
use pelican_bench.Base.Int.{ℤ, pos, negsuc, ltb_ℤ}
use pelican_bench.Base.Text.{◌^^◌, is_blank}
use pelican_bench.Campaign.{CampaignManifest, CellState, succeeded, quarantined, failed, same_state}
use pelican_bench.Store.Result.{
  Result, ◌>>◌, raise_if, worker_id_required, limit_not_positive, interval_negative,
  interval_with_fixed_time, interval_too_long,
}
use pelican_bench.Store.Time.{Timestamp}
use pelican_bench.Store.Money.{finite, round8_ℤ}
use pelican_bench.Store.Tables.{Store, StoreLease}
use pelican_bench.Store.Lease.{LeaseRequest}
use pelican_bench.Store.Holder.{Completion}
use pelican_bench.Worker.Outcome.{
  Trial, Scorecard, RunResult, cost_for_result, terminal_outcome, TerminalOutcome,
}
use pelican_bench.Worker.Records.{ExecutionPayload, CampaignCellExecution, CampaignWorkerResult}
use pelican_bench.Worker.Beats.{HeartbeatResult, Tick}

-- what the worker reads of a `ModelAdapter`
pub record Adapter : Type 0 where
  pub model_id : String
  pub model_revision : String
  pub adapter_id : String

-- What `run_benchmark` returns, or the exception that it raises.
pub data RunOutcome : Type 0 where
  finished : RunResult → RunOutcome
  crashed : (error_type error_message : String) → RunOutcome

-- What happens outside the worker while it has a lease in hand: the heartbeat thread's ticks and whether
-- it is stuck, what the run gives, what other workers do to the store before the completion, and the
-- time of the completion.
pub record Meanwhile : Type 0 where
  pub ticks : List Tick
  pub stuck : Bool
  pub outcome : RunOutcome
  pub others : Store → Store
  pub completed_at : Timestamp

-- The arguments. An interval is in microseconds; `started_at` is the clock where `now` is None.
pub record BatchRequest : Type 0 where
  pub worker_id : String
  pub limit : ℕ
  pub lease_seconds : ℕ
  pub stage_id : Option String
  pub now : Option Timestamp
  pub started_at : Timestamp
  pub factory : ℕ → String
  pub heartbeat_interval : Option ℤ

-- the database, and the files under the output directory
pub record World : Type 0 where
  pub store : Store
  pub executions : List (String × CampaignCellExecution)
  pub batches : List (String × CampaignWorkerResult)

-- How a lease is settled: the arguments of the completion and the fields of the record that the
-- branches of the loop give.
pub record Settlement : Type 0 where
  pub worker : String
  pub outcome : TerminalOutcome
  pub cost : ℤ
  pub cost_basis : String
  pub charged_artifact : Option String
  pub artifact_id : Option String
  pub run_id : Option String
  pub scorecard_hash : Option String
  pub output_directory : String

-- `now`, or the clock
abbrev pub time_or : Option Timestamp → Timestamp → Timestamp
time_or none clock = clock
time_or (some t) clock = t

-- `max` and `min`
abbrev pub larger : ℕ → ℕ → ℕ
larger a b = if leb a b then b else a

abbrev pub smaller : ℕ → ℕ → ℕ
smaller a b = if leb a b then a else b

-- `selected_heartbeat_interval`
abbrev pub heartbeat_interval_of : BatchRequest → ℤ
heartbeat_interval_of q = elim q.heartbeat_interval [
  | some i ↦ i
  | none ↦
      if is_none q.now
      then pos (larger 1000000 (smaller (q.lease_seconds * 1000000 / 3) 300000000))
      else pos 0
]

-- `heartbeat_interval_seconds not in {None, 0}`
abbrev pub is_interval : Option ℤ → Bool
is_interval none = false
is_interval (some (pos n)) = ltb 0 n
is_interval (some (negsuc _)) = true

abbrev pub is_negative : Option ℤ → Bool
is_negative none = false
is_negative (some i) = ltb_ℤ i (pos 0)

-- the checks of the arguments
unfoldable pub check_batch : BatchRequest → Result (Unit {0})
check_batch q = do
  raise_if (is_blank q.worker_id) worker_id_required
  raise_if (ltb q.limit 1) limit_not_positive
  raise_if (is_negative q.heartbeat_interval) interval_negative
  raise_if (not (is_none q.now) && is_interval q.heartbeat_interval) interval_with_fixed_time
  let i = heartbeat_interval_of q
  raise_if (not (ltb_ℤ i (pos (q.lease_seconds * 1000000))) && ltb_ℤ (pos 0) i) interval_too_long

abbrev pub batch_lease : BatchRequest → Adapter → LeaseRequest
batch_lease q a = record {
  worker_id = q.worker_id;
  limit = q.limit;
  lease_seconds = q.lease_seconds;
  stage_id = q.stage_id;
  model_id = some a.model_id;
  now = time_or q.now q.started_at;
  factory = q.factory;
}

-- the branch of a lease whose task is not in `task_map`
abbrev pub missing_task : String → StoreLease → Settlement
missing_task worker lease = record {
  worker = worker;
  outcome = record {
    state = failed;
    reason = "task-missing-from-worker-corpus";
    error_type = some "KeyError";
    error_message = some ("task not supplied: " ^^ lease.task_id);
  };
  cost = pos 0;
  cost_basis = "not-invoked";
  charged_artifact = none;
  artifact_id = none;
  run_id = none;
  scorecard_hash = none;
  output_directory = "";
}

-- the branch of a run that raised
abbrev pub crashed_run : String → StoreLease → String → String → String → Settlement
crashed_run worker lease directory error_type error_message = record {
  worker = worker;
  outcome = record {
    state = failed;
    reason = "worker-infrastructure-failure";
    error_type = some error_type;
    error_message = some error_message;
  };
  cost = round8_ℤ lease.estimated_cost;
  cost_basis = "worker-exception-conservative-estimate";
  charged_artifact = none;
  artifact_id = none;
  run_id = none;
  scorecard_hash = none;
  output_directory = directory;
}

abbrev pub first_artifact : List Trial → Option String
first_artifact [] = none
first_artifact (t ∷ _) = t.artifact_id

-- `artifact_id if terminal_state in {"succeeded", "quarantined"} else None`
abbrev pub kept_artifact : CellState → Option String → Option String
kept_artifact state artifact =
    if same_state state succeeded || same_state state quarantined then artifact else none

abbrev pub first_hash : (Scorecard → String) → List Scorecard → Option String
first_hash hash [] = none
first_hash hash (score ∷ _) = some ("sha256:" ^^ hash score)

-- the branch of a run that returned, with what `_record` reads of the result; `hash` digests a scorecard
abbrev pub finished_run : (Scorecard → String) → StoreLease → String → RunResult → Settlement
finished_run hash lease directory result =
    let o = terminal_outcome result in
    let (cost, basis) = cost_for_result lease result in
    record {
      worker = lease.worker_id;
      outcome = o;
      cost = cost;
      cost_basis = basis;
      charged_artifact = kept_artifact o.state (first_artifact result.trials);
      artifact_id = first_artifact result.trials;
      run_id = some result.run_id;
      scorecard_hash = first_hash hash result.scorecards;
      output_directory = directory;
    }

abbrev pub completion_of : String → StoreLease → Settlement → Timestamp → Completion
completion_of worker lease x now = record {
  cell_id = lease.cell_id;
  worker_id = worker;
  lease_token = lease.lease_token;
  new_state = x.outcome.state;
  reason = x.outcome.reason;
  actual_cost = finite x.cost;
  artifact_id = x.charged_artifact;
  now = now;
}

-- the payload of the record
abbrev pub execution_payload :
    CampaignManifest → Adapter → StoreLease → Settlement → HeartbeatResult → ExecutionPayload
execution_payload m a lease x beats = record {
  schema_version = "1.0.0";
  campaign_id = m.campaign_id;
  cell_id = lease.cell_id;
  worker_id = x.worker;
  lease_token = lease.lease_token;
  model_id = a.model_id;
  model_revision = a.model_revision;
  adapter_id = a.adapter_id;
  task_id = lease.task_id;
  replicate = lease.replicate;
  seed = lease.seed;
  terminal_state = x.outcome.state;
  terminal_reason = x.outcome.reason;
  charged_cost = x.cost;
  cost_basis = x.cost_basis;
  artifact_id = x.artifact_id;
  run_id = x.run_id;
  scorecard_hash = x.scorecard_hash;
  output_directory = x.output_directory;
  error_type = x.outcome.error_type;
  error_message = x.outcome.error_message;
  heartbeat_count = beats.count;
  heartbeat_error = beats.error;
  attempt = lease.attempt;
}
