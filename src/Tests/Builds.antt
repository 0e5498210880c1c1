-- ===== src/Tests/Builds.antt =====
-- The theorem on the budget gate, at a plan of two cells.
use pelican_bench.Base.{ℕ, String, ◌≡◌, refl, Bool, true, some, List, [], ◌∷◌, ◌==◌}
use pelican_bench.Base.Dict.{get, put, collect}
use pelican_bench.Campaign.{CampaignCell, ready}
use pelican_bench.Base.Int.{pos}
use pelican_bench.Build.{
  finite, nan, BuiltCell, PriceSchedule, CampaignPolicy, ProspectiveCell, Built, built, pass,
  build_campaign, price_entries, one_currency, check_currency, plan_before, cells_of,
  price_estimate, known_cost, unknown_cost_cells, budget_gate,
}
use pelican_bench.Base.Lists.{All}
use pelican_bench.Build.Shards.{
  ShardPayload, add_to_group, group_ready, chunks, sum_estimates, shards_of_chunks,
  shards_of_groups, ids_of_cells, build_shards,
}
use pelican_bench.Build.Partition.{sharded_times, times, ready_cells, IsChunk, build_shards-once}
use pelican_bench.Build.Members.{IsShard, build_shards-IsShard}
use pelican_bench.Build.Gate.{Passes, build-Passes}

abbrev price : PriceSchedule
price = record {
  model_id = "m1";
  currency = "USD";
  input_per_million = finite 1000000;
  output_per_million = finite 2000000;
  request_fee = finite 0;
}

abbrev policy : CampaignPolicy
policy = record {
  default_input_tokens = 300;
  default_output_tokens = 8000;
  reserve_fraction = 150000;
  hard_budget = some (finite 1000000000000);
  currency = "USD";
  require_price_schedule = true;
  require_hard_budget_before_execution = true;
}

abbrev planned : String → ℕ → ProspectiveCell
planned task replicate = record {
  cell_id = task;
  stage_id = "pilot";
  model_id = "m1";
  task_id = task;
  replicate = replicate;
  seed = 7;
}

abbrev sources : List ProspectiveCell
sources = planned "t2" 0 ∷ planned "t1" 0 ∷ []

abbrev qualified : String → Bool
qualified model = model == "m1"

abbrev cells_in : Built → List BuiltCell
cells_in (built cells _) = cells
cells_in (Built.refused _) = []

abbrev built_cells : List BuiltCell
built_cells = cells_in (build_campaign policy (price ∷ []) qualified sources)

built_ok : build_campaign policy (price ∷ []) qualified sources ≡ built built_cells pass
unfolding get put collect build_campaign price_entries one_currency check_currency plan_before
    cells_of price_estimate known_cost unknown_cost_cells budget_gate
built_ok = refl

build-Passes_example : Passes policy built_cells
build-Passes_example = build-Passes policy (price ∷ []) qualified sources built_cells built_ok

-- a price of NaN, and a gate that passes
abbrev nan_price : PriceSchedule
nan_price = record price { request_fee = nan }

nan_passes :
    build_campaign policy (nan_price ∷ []) qualified sources
    ≡ built (cells_in (build_campaign policy (nan_price ∷ []) qualified sources)) pass
unfolding get put collect build_campaign price_entries one_currency check_currency plan_before
    cells_of price_estimate known_cost unknown_cost_cells budget_gate
nan_passes = refl

abbrev sharded : String → CampaignCell
sharded task = record {
  cell_id = task;
  stage_id = "pilot";
  model_id = "m1";
  task_id = task;
  replicate = 0;
  seed = 7;
  state = ready;
  estimated_cost = some (pos 16);
}

abbrev cells : List CampaignCell
cells = sharded "t1" ∷ sharded "t2" ∷ []

abbrev shard_hash : ShardPayload → String
shard_hash p = p.stage_id

build_shards-once_example :
    ((k : String)
      → sharded_times k (build_shards shard_hash "policy" 2 cells)
        ≡ times k (ids_of_cells (ready_cells cells)))
    × All (IsChunk 2) (build_shards shard_hash "policy" 2 cells)
build_shards-once_example = build_shards-once shard_hash "policy" 1 cells

build_shards-IsShard_example : All (IsShard cells) (build_shards shard_hash "policy" 2 cells)
build_shards-IsShard_example = build_shards-IsShard cells shard_hash "policy" 2

-- two cells in shards of one
shard_ids : sharded_times "t1" (build_shards shard_hash "policy" 1 cells) ≡ 1
unfolding get put collect build_campaign price_entries one_currency check_currency plan_before
    cells_of price_estimate known_cost unknown_cost_cells budget_gate add_to_group group_ready
    chunks sum_estimates shards_of_chunks shards_of_groups
shard_ids = refl
