-- ===== src/Store/Initialise.antt =====
-- `initialise_campaign_store` of src/pelicanbench/campaign_store.py. `overwrite` deletes the
-- database first, and the new one has empty tables.
use pelican_bench.Base.{String, Bool, none, List, [], ◌∷◌, ◌++◌, if◌then◌else◌, is_none}
use pelican_bench.Campaign.{CampaignManifest, CampaignCell}
use pelican_bench.Store.Result.{Result, ok, ◌>>=◌, ◌>>◌, raise_unless, integrity_error}
use pelican_bench.Store.Time.{Timestamp}
use pelican_bench.Store.Tables.{Store, CellRow, find_cell}
use pelican_bench.Store.Journal.{Codec, verify_manifest, manifest_hash}
use pelican_bench.Store.Queries.{transaction}

abbrev pub no_tables : Store
no_tables = record { metadata = []; cells = []; events = [] }

-- one row of the INSERT; the columns of a lease and the artifact are NULL by default
abbrev pub first_row : Timestamp → CampaignCell → CellRow
first_row created_at c = record {
  cell_id = c.cell_id;
  stage_id = c.stage_id;
  model_id = c.model_id;
  task_id = c.task_id;
  replicate = c.replicate;
  seed = c.seed;
  initial_state = c.state;
  state = c.state;
  estimated_cost = c.estimated_cost;
  actual_cost = 0;
  attempt_count = 0;
  lease_owner = none;
  lease_token = none;
  leased_at = none;
  lease_expires_at = none;
  artifact_id = none;
  reason = none;
  updated_at = created_at;
}

-- `executemany` of the INSERT: a second row with the same primary key is refused
unfoldable pub insert_cells : Timestamp → List CampaignCell → List CellRow → Result (List CellRow)
insert_cells created_at [] rows = ok rows
insert_cells created_at (c ∷ cells) rows = do
  raise_unless (is_none (find_cell c.cell_id rows)) integrity_error
  insert_cells created_at cells (rows ++ first_row created_at c ∷ [])

module _ (d : Codec) (m : CampaignManifest) where
  -- the dict `metadata`; `created` is the text of the time of creation
  abbrev pub first_metadata : String → List (String × String)
  first_metadata created =
      ("schema_version", "2")
      ∷ ("campaign_id", m.campaign_id)
      ∷ ("manifest_hash", manifest_hash d m)
      ∷ ("task_identity_commitment", m.task_identity_commitment)
      ∷ ("policy_hash", m.policy_hash)
      ∷ ("hard_budget", d.budget_json m.hard_budget)
      ∷ ("max_parallel_per_model", d.count_text m.max_parallel_per_model)
      ∷ ("created_at", created)
      ∷ []

  -- the transaction; `created_at` is `manifest.generated_at`, or the clock's time if that is blank,
  -- as a text and as a timestamp
  unfoldable pub initialise_body : String → Timestamp → Store → Result (Unit {0} × Store)
  initialise_body created created_at s = elim s.metadata [
    | [] ↦ do
      rows ← insert_cells created_at m.cells s.cells
      ok (tt, record s { metadata = first_metadata created; cells = rows })
    | _ ∷ _ ↦ do verify_manifest d m s; ok (tt, s)
  ]

  unfoldable pub initialise_campaign_store :
      Bool → String → Timestamp → Store → Result (Unit {0}) × Store
  initialise_campaign_store overwrite created created_at s =
      transaction (initialise_body created created_at) (if overwrite then no_tables else s)
