-- ===== src/Build/Members.antt =====
-- The cells of a shard (src/pelicanbench/campaign.py) are of its stage and of its model.
use pelican_bench.Base.{
  ℕ, zero, suc, ◌≡◌, refl, sym, String, List, [], ◌∷◌, ◌==◌, eq_iff, Bool-cases, inl, inr,
  &&-eq-true,
}
use pelican_bench.Base.Lists.{
  length, take, drop, All, All-append, All-snoc, Has, Has-self, All-take, All-drop, sort_by-All,
  sort_by,
}
use pelican_bench.Campaign.{CampaignCell, CampaignShard, ready, same_state, eq_of_same_state}
use pelican_bench.Build.Shards.{
  CellGroup, is_group_of, add_to_group, group_ready, group_before, chunks, ids_of_cells,
  ShardPayload, shard_of, shards_of_chunks, shards_of_groups, build_shards,
}

module _ (cells : List CampaignCell) where
  -- a ready cell of the campaign, of a stage and of a model
  pub record Belongs (stage_id model_id : String) (c : CampaignCell) : Type 0 where
    pub has : Has c cells
    pub live : c.state ≡ ready
    pub stage : c.stage_id ≡ stage_id
    pub model : c.model_id ≡ model_id

  abbrev pub GroupBelongs : CellGroup → Type 0
  GroupBelongs g = All (Belongs g.stage_id g.model_id) g.cells

  added-GroupBelongs :
      (c : CampaignCell) (groups : List CellGroup)
      → Has c cells
      → c.state ≡ ready
      → All GroupBelongs groups
      → All GroupBelongs (add_to_group c groups)
  unfolding add_to_group
  added-GroupBelongs c [] has live h =
      ((record { has = has; live = live; stage = refl; model = refl }, tt), tt)
  added-GroupBelongs c (g ∷ groups) has live h = elim (Bool-cases (is_group_of c g)) [
    | inl e ↦
        let (stage, model) = &&-eq-true (g.stage_id == c.stage_id) (g.model_id == c.model_id) e in
        rw e (
          All-snoc (Belongs g.stage_id g.model_id) g.cells c h.0 (record {
            has = has;
            live = live;
            stage = sym ((eq_iff g.stage_id c.stage_id).0 stage);
            model = sym ((eq_iff g.model_id c.model_id).0 model);
          }),
          h.1,
        )
    | inr e ↦ rw e (h.0, added-GroupBelongs c groups has live h.1)
  ]

  grouped-GroupBelongs :
      (todo : List CampaignCell) (groups : List CellGroup)
      → All (λ (c : CampaignCell). Has c cells) todo
      → All GroupBelongs groups
      → All GroupBelongs (group_ready todo groups)
  unfolding group_ready
  grouped-GroupBelongs [] groups there h = h
  grouped-GroupBelongs (c ∷ todo) groups there h = elim (Bool-cases (same_state c.state ready)) [
    | inl e ↦ rw e (
        grouped-GroupBelongs todo (add_to_group c groups) there.1
          (added-GroupBelongs c groups there.0 (eq_of_same_state c.state ready e) h))
    | inr e ↦ rw e (grouped-GroupBelongs todo groups there.1 h)
  ]

  -- Each id of a shard is of a ready cell of the shard's stage and model.
  pub record IsNamed (s : CampaignShard) (k : String) : Type 0 where
    pub cell : CampaignCell
    pub names : cell.cell_id ≡ k
    pub belongs : Belongs s.stage_id s.model_id cell

  abbrev pub IsShard : CampaignShard → Type 0
  IsShard s = All (IsNamed s) s.cell_ids

  module _ (hash : ShardPayload → String) (policy_hash : String) (shard_size : ℕ) where
    named :
        (s : CampaignShard) (chunk : List CampaignCell)
        → All (Belongs s.stage_id s.model_id) chunk
        → All (IsNamed s) (ids_of_cells chunk)
    named s [] h = tt
    named s (c ∷ chunk) h = (record { cell = c; names = refl; belongs = h.0 }, named s chunk h.1)

    chunked-IsShard :
        (g : CellGroup) (fuel : ℕ) (todo : List CampaignCell)
        → All (Belongs g.stage_id g.model_id) todo
        → All IsShard (shards_of_chunks hash policy_hash shard_size g (chunks fuel shard_size todo))
    unfolding chunks shards_of_chunks
    chunked-IsShard g zero todo h = tt
    chunked-IsShard g (suc fuel) [] h = tt
    chunked-IsShard g (suc fuel) (c ∷ todo) h =
        let chunk = take shard_size (c ∷ todo) in
        (
          named (shard_of hash policy_hash shard_size g chunk) chunk
              (All-take _ shard_size (c ∷ todo) h),
          chunked-IsShard g fuel (drop shard_size (c ∷ todo)) (All-drop _ shard_size (c ∷ todo) h),
        )

    sharded-IsShard :
        (groups : List CellGroup)
        → All GroupBelongs groups
        → All IsShard (shards_of_groups hash policy_hash shard_size groups)
    unfolding shards_of_groups
    sharded-IsShard [] h = tt
    sharded-IsShard (g ∷ groups) h =
        All-append IsShard _ _ (chunked-IsShard g (length g.cells) g.cells h.0)
          (sharded-IsShard groups h.1)

    -- Every id in a shard is the id of a ready cell of the campaign, of the shard's stage and of its
    -- model.
    pub build_shards-IsShard : All IsShard (build_shards hash policy_hash shard_size cells)
    build_shards-IsShard = sharded-IsShard (sort_by group_before (group_ready cells [])) (
        sort_by-All GroupBelongs group_before (group_ready cells [])
          (grouped-GroupBelongs cells [] (Has-self cells) tt))
