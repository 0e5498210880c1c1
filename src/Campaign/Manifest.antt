-- ===== src/Campaign/Manifest.antt =====
-- `PriceSchedule`, `CampaignPolicy`, `CampaignCell`, `CampaignShard` and `CampaignManifest` of
-- src/pelicanbench/campaign.py. A Python float that holds money is an integer number of
-- 10 ^ -12 currency units.
use pelican_bench.Base.{String, ℕ, Option, List}
use pelican_bench.Base.Int.{ℤ}
use pelican_bench.Campaign.States.{CellState}

pub record CampaignCell : Type 0 where
  pub cell_id : String
  pub stage_id : String
  pub model_id : String
  pub task_id : String
  pub replicate : ℕ
  pub seed : ℕ
  pub state : CellState
  pub estimated_cost : Option ℤ

pub record CampaignShard : Type 0 where
  pub shard_id : String
  pub stage_id : String
  pub model_id : String
  pub cell_ids : List String
  pub estimated_cost : ℤ
  pub content_hash : String

pub record CampaignManifest : Type 0 where
  pub schema_version : String
  pub generated_at : String
  pub campaign_id : String
  pub prospective_plan_hash : String
  pub task_identity_commitment : String
  pub currency : String
  pub hard_budget : Option ℤ
  pub max_parallel_per_model : ℕ
  pub policy_hash : String
  pub budget_gate : String
  pub estimated_cost : ℤ
  pub estimated_cost_with_reserve : ℤ
  pub unknown_cost_cells : ℕ
  pub cells : List CampaignCell
  pub shards : List CampaignShard
