-- ===== src/Build/Shards.antt =====
-- The shards of `build_campaign_manifest` (src/pelicanbench/campaign.py): the ready cells of one stage
-- and one model, in chunks of `shard_size`. Estimates are finite numbers here.
use pelican_bench.Base.{
  ℕ, zero, suc, String, Bool, List, [], ◌∷◌, ◌++◌, if◌then◌else◌, ◌==◌, ◌&&◌, ◌||◌,
}
use Prim.Native.String.{compare}
use text.Mathlib.Text.{is_lt}
use pelican_bench.Base.Int.{ℤ, pos, ◌+ℤ◌}
use pelican_bench.Base.Lists.{length, take, drop, sort_by}
use pelican_bench.Base.Text.{◌^^◌, take_chars, after_colon}
use pelican_bench.Campaign.{CampaignCell, CampaignShard, ready, same_state}
use pelican_bench.Store.Money.{or_zero}

-- an entry of the dict `grouped`
pub record CellGroup : Type 0 where
  pub stage_id : String
  pub model_id : String
  pub cells : List CampaignCell

abbrev pub is_group_of : CampaignCell → CellGroup → Bool
is_group_of c g = (g.stage_id == c.stage_id) && (g.model_id == c.model_id)

-- `grouped.setdefault((cell.stage_id, cell.model_id), []).append(cell)`
unfoldable pub add_to_group : CampaignCell → List CellGroup → List CellGroup
add_to_group c [] = record { stage_id = c.stage_id; model_id = c.model_id; cells = c ∷ [] } ∷ []
add_to_group c (g ∷ groups) =
    if is_group_of c g
    then record g { cells = g.cells ++ c ∷ [] } ∷ groups
    else g ∷ add_to_group c groups

-- the loop over the cells
unfoldable pub group_ready : List CampaignCell → List CellGroup → List CellGroup
group_ready [] groups = groups
group_ready (c ∷ cells) groups =
    let rest = group_ready cells groups in
    let next = group_ready cells (add_to_group c groups) in
    if same_state c.state ready then next else rest

-- the order of (stage_id, model_id)
abbrev pub group_before : CellGroup → CellGroup → Bool
group_before a b =
    is_lt (compare a.stage_id b.stage_id)
    || (a.stage_id == b.stage_id) && is_lt (compare a.model_id b.model_id)

-- `group[offset : offset + shard_size]` for the offsets of `range(0, len(group), shard_size)`, with
-- fuel for as many chunks as the group has cells
unfoldable pub chunks : ℕ → ℕ → List CampaignCell → List (List CampaignCell)
chunks zero size cells = []
chunks (suc fuel) size [] = []
chunks (suc fuel) size (c ∷ cells) =
    take size (c ∷ cells) ∷ chunks fuel size (drop size (c ∷ cells))

abbrev pub ids_of_cells : List CampaignCell → List String
ids_of_cells [] = []
ids_of_cells (c ∷ cells) = c.cell_id ∷ ids_of_cells cells

unfoldable pub sum_estimates : List CampaignCell → ℤ
sum_estimates [] = pos 0
sum_estimates (c ∷ cells) = or_zero c.estimated_cost +ℤ sum_estimates cells

-- the payload that a shard's hash covers
pub record ShardPayload : Type 0 where
  pub stage_id : String
  pub model_id : String
  pub cell_ids : List String
  pub policy_hash : String

-- `hash` digests the canonical JSON of a payload
module _ (hash : ShardPayload → String) (policy_hash : String) (shard_size : ℕ) where
  abbrev pub shard_of : CellGroup → List CampaignCell → CampaignShard
  shard_of g chunk =
      let h =
        "sha256:"
        ^^ hash (record {
          stage_id = g.stage_id;
          model_id = g.model_id;
          cell_ids = ids_of_cells chunk;
          policy_hash = policy_hash;
        }) in
      record {
        shard_id = "CSHARD-" ^^ take_chars 24 (after_colon h);
        stage_id = g.stage_id;
        model_id = g.model_id;
        cell_ids = ids_of_cells chunk;
        estimated_cost = sum_estimates chunk;
        content_hash = h;
      }

  unfoldable pub shards_of_chunks : CellGroup → List (List CampaignCell) → List CampaignShard
  shards_of_chunks g [] = []
  shards_of_chunks g (chunk ∷ rest) = shard_of g chunk ∷ shards_of_chunks g rest

  unfoldable pub shards_of_groups : List CellGroup → List CampaignShard
  shards_of_groups [] = []
  shards_of_groups (g ∷ groups) =
      shards_of_chunks g (chunks (length g.cells) shard_size g.cells) ++ shards_of_groups groups

  -- the loops that make the shards
  abbrev pub build_shards : List CampaignCell → List CampaignShard
  build_shards cells = shards_of_groups (sort_by group_before (group_ready cells []))
