-- ===== src/Worker/Records.antt =====
-- `CampaignCellExecution`, `CampaignWorkerResult` and the files that keep them
-- (src/pelicanbench/campaign_worker.py). A directory of files is a dict from paths to what
-- `read_json` gives for them.
use Prim.Native.Char.{Char, code}
use pelican_bench.Base.{
  ℕ, String, Bool, false, Option, none, some, List, if◌then◌else◌, ◌==◌, ◌&&◌, ◌||◌, eqb,
}
use pelican_bench.Base.Int.{ℤ, pos, negsuc}
use pelican_bench.Base.Dict.{get, put}
use pelican_bench.Base.Text.{◌^^◌, is_empty, take_chars, after_colon}
use pelican_bench.Campaign.{CellState, same_state}
use pelican_bench.Store.Result.{Result, ok, err, record_collision}
use pelican_bench.Store.Tables.{same_text?}

-- the fields of an execution that its hash covers
pub record ExecutionPayload : Type 0 where
  pub schema_version : String
  pub campaign_id : String
  pub cell_id : String
  pub worker_id : String
  pub lease_token : String
  pub model_id : String
  pub model_revision : String
  pub adapter_id : String
  pub task_id : String
  pub replicate : ℕ
  pub seed : ℕ
  pub terminal_state : CellState
  pub terminal_reason : String
  pub charged_cost : ℤ
  pub cost_basis : String
  pub artifact_id : Option String
  pub run_id : Option String
  pub scorecard_hash : Option String
  pub output_directory : String
  pub error_type : Option String
  pub error_message : Option String
  pub heartbeat_count : ℕ
  pub heartbeat_error : Option String
  pub attempt : ℕ

pub record CampaignCellExecution : Type 0 where
  pub payload : ExecutionPayload
  pub open payload use *
  pub record_hash : String

pub record WorkerResultPayload : Type 0 where
  pub schema_version : String
  pub campaign_id : String
  pub worker_id : String
  pub model_id : String
  pub leased_cells : ℕ
  pub succeeded : ℕ
  pub quarantined : ℕ
  pub failed : ℕ
  pub charged_cost : ℤ
  pub heartbeat_count : ℕ
  pub heartbeat_failures : ℕ
  pub records : List CampaignCellExecution

pub record CampaignWorkerResult : Type 0 where
  pub payload : WorkerResultPayload
  pub open payload use *
  pub batch_hash : String

-- `==` on integers
abbrev pub same_ℤ : ℤ → ℤ → Bool
same_ℤ (pos a) (pos b) = eqb a b
same_ℤ (negsuc a) (negsuc b) = eqb a b
same_ℤ _ _ = false

-- `==` on the JSON of executions, field by field
unfoldable pub same_execution : CampaignCellExecution → CampaignCellExecution → Bool
same_execution a b =
    (a.schema_version == b.schema_version)
    && (a.campaign_id == b.campaign_id)
    && (a.cell_id == b.cell_id)
    && (a.worker_id == b.worker_id)
    && (a.lease_token == b.lease_token)
    && (a.model_id == b.model_id)
    && (a.model_revision == b.model_revision)
    && (a.adapter_id == b.adapter_id)
    && (a.task_id == b.task_id)
    && eqb a.replicate b.replicate
    && eqb a.seed b.seed
    && same_state a.terminal_state b.terminal_state
    && (a.terminal_reason == b.terminal_reason)
    && same_ℤ a.charged_cost b.charged_cost
    && (a.cost_basis == b.cost_basis)
    && same_text? a.artifact_id b.artifact_id
    && same_text? a.run_id b.run_id
    && same_text? a.scorecard_hash b.scorecard_hash
    && (a.output_directory == b.output_directory)
    && same_text? a.error_type b.error_type
    && same_text? a.error_message b.error_message
    && eqb a.heartbeat_count b.heartbeat_count
    && same_text? a.heartbeat_error b.heartbeat_error
    && eqb a.attempt b.attempt
    && (a.record_hash == b.record_hash)

-- `read_json(path) == dict(payload)` for a batch: the list `records` of the file is compared with the
-- tuple that `asdict` leaves in the payload, and a list equals no tuple.
unfoldable pub same_batch : CampaignWorkerResult → CampaignWorkerResult → Bool
same_batch old new = false

-- `_write_immutable_json`
unfoldable pub write_immutable {ℓ} :
    {V : Type ℓ} → (V → V → Bool) → String → V → List (String × V) → Result (List (String × V))
write_immutable same path value files = elim (get path files) [
  | none ↦ ok (put path value files)
  | some old ↦ if same old value then ok files else err record_collision
]

-- What hashlib, json and str make of values: the hexadecimal digests of the canonical JSON of an
-- execution and of a batch, `str.isalnum` of a character, and f"{n:03d}".
pub record WorkerCodec : Type 0 where
  pub of_execution : ExecutionPayload → String
  pub of_batch : WorkerResultPayload → String
  pub is_alnum : Char → Bool
  pub three_digits : ℕ → String

-- the 16 hexadecimal characters of a hash that a file name has
abbrev pub digest16 : String → String
digest16 hash = take_chars 16 (after_colon hash)

module _ (w : WorkerCodec) where
  -- `character.isalnum() or character in "-_."`
  abbrev pub is_safe_char : Char → Bool
  is_safe_char c = w.is_alnum c || eqb (code c) 45 || eqb (code c) 95 || eqb (code c) 46

  abbrev pub safe_chars : String → String
  safe_chars String.[] = String.[]
  safe_chars (String.◌∷◌ c s) =
      let rest = safe_chars s in if is_safe_char c then String.◌∷◌ c rest else "_" ^^ rest

  -- `_safe_identifier`
  unfoldable pub safe_identifier : String → String
  safe_identifier s = if is_empty (safe_chars s) then "cell" else safe_chars s

  -- `CampaignCellExecution(**payload, record_hash=content_hash(payload))`
  abbrev pub with_hash : ExecutionPayload → CampaignCellExecution
  with_hash p = record { payload = p; record_hash = "sha256:" ^^ w.of_execution p }

  -- `_record_path`
  unfoldable pub record_path : CampaignCellExecution → String
  unfolding safe_identifier
  record_path x =
      "execution-records/"
      ^^ safe_identifier x.cell_id
      ^^ "/attempt-"
      ^^ w.three_digits x.attempt
      ^^ "-"
      ^^ digest16 x.record_hash
      ^^ ".json"

  unfoldable pub batch_path : CampaignWorkerResult → String
  unfolding safe_identifier
  batch_path b =
      "worker-batches/" ^^ safe_identifier b.worker_id ^^ "/" ^^ digest16 b.batch_hash ^^ ".json"
