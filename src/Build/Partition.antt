-- ===== src/Build/Partition.antt =====
-- The shards of a campaign (src/pelicanbench/campaign.py) are a partition of its ready cells.
use pelican_bench.Base.{
  ℕ, zero, suc, ◌+◌, ◌≤◌, ◌≡◌, refl, sym, ap, ◌∙◌, String, List, [], ◌∷◌, ◌++◌, arith, ◌==◌,
  Bool-cases, inl, inr,
}
use pelican_bench.Base.Lists.{
  length, take, drop, take-drop, length-take, length-drop, All, All-append, select, sort_by,
  insert_by,
}
use pelican_bench.Campaign.{CampaignCell, CampaignShard, ready, same_state}
use pelican_bench.Store.Queries.{one_if}
use pelican_bench.Build.Shards.{
  CellGroup, is_group_of, add_to_group, group_ready, group_before, chunks, ids_of_cells,
  ShardPayload, shards_of_chunks, shards_of_groups, build_shards,
}

-- how often a list of ids has the id `k`
abbrev pub times : String → List String → ℕ
times k [] = 0
times k (x ∷ xs) = one_if (x == k) + times k xs

times-append : (k : String) (xs ys : List String) → times k (xs ++ ys) ≡ times k xs + times k ys
times-append k [] ys = omega arith
times-append k (x ∷ xs) ys = omega (arith, times-append k xs ys)

ids-append :
    (xs ys : List CampaignCell) → ids_of_cells (xs ++ ys) ≡ ids_of_cells xs ++ ids_of_cells ys
ids-append [] ys = refl
ids-append (x ∷ xs) ys = ap (λ (z : List String). x.cell_id ∷ z) (ids-append xs ys)

times-cells :
    (k : String) (xs ys : List CampaignCell)
    → times k (ids_of_cells (xs ++ ys)) ≡ times k (ids_of_cells xs) + times k (ids_of_cells ys)
times-cells k xs ys =
    ap (λ (z : List String). times k z) (ids-append xs ys)
    ∙ times-append k (ids_of_cells xs) (ids_of_cells ys)

-- the ready cells
abbrev pub ready_cells : List CampaignCell → List CampaignCell
ready_cells cells = select (λ (c : CampaignCell). same_state c.state ready) cells

-- the ids that the groups, and that the shards, have
abbrev grouped_times : String → List CellGroup → ℕ
grouped_times k [] = 0
grouped_times k (g ∷ groups) = times k (ids_of_cells g.cells) + grouped_times k groups

abbrev pub sharded_times : String → List CampaignShard → ℕ
sharded_times k [] = 0
sharded_times k (s ∷ shards) = times k s.cell_ids + sharded_times k shards

sharded_times-append :
    (k : String) (xs ys : List CampaignShard)
    → sharded_times k (xs ++ ys) ≡ sharded_times k xs + sharded_times k ys
sharded_times-append k [] ys = omega arith
sharded_times-append k (x ∷ xs) ys = omega (arith, sharded_times-append k xs ys)

added_once :
    (k : String) (c : CampaignCell) (groups : List CellGroup)
    → grouped_times k (add_to_group c groups) ≡ one_if (c.cell_id == k) + grouped_times k groups
unfolding add_to_group
added_once k c [] = omega arith
added_once k c (g ∷ groups) = elim (Bool-cases (is_group_of c g)) [
  | inl e ↦ rw e (omega (arith, times-cells k g.cells (c ∷ [])))
  | inr e ↦ rw e (omega (arith, added_once k c groups))
]

grouped_once :
    (k : String) (cells : List CampaignCell) (groups : List CellGroup)
    → grouped_times k (group_ready cells groups)
      ≡ times k (ids_of_cells (ready_cells cells)) + grouped_times k groups
unfolding group_ready
grouped_once k [] groups = omega arith
grouped_once k (c ∷ cells) groups = elim (Bool-cases (same_state c.state ready)) [
  | inl e ↦
      rw e (omega (arith, grouped_once k cells (add_to_group c groups), added_once k c groups))
  | inr e ↦ rw e (grouped_once k cells groups)
]

inserted_once :
    (k : String) (g : CellGroup) (groups : List CellGroup)
    → grouped_times k (insert_by group_before g groups)
      ≡ times k (ids_of_cells g.cells) + grouped_times k groups
inserted_once k g [] = refl
inserted_once k g (x ∷ groups) = elim (Bool-cases (group_before x g)) [
  | inl e ↦ rw e (omega (arith, inserted_once k g groups))
  | inr e ↦ rw e refl
]

sorted_once :
    (k : String) (groups : List CellGroup)
    → grouped_times k (sort_by group_before groups) ≡ grouped_times k groups
sorted_once k [] = refl
sorted_once k (g ∷ groups) =
    omega (arith, inserted_once k g (sort_by group_before groups), sorted_once k groups)

-- A shard is not empty and not larger than `size`.
pub record IsChunk (size : ℕ) (s : CampaignShard) : Type 0 where
  pub some_cell : 1 ≤ length s.cell_ids
  pub within : length s.cell_ids ≤ size

length-ids : (cells : List CampaignCell) → length (ids_of_cells cells) ≡ length cells
length-ids [] = refl
length-ids (c ∷ cells) = ap (λ (n : ℕ). suc n) (length-ids cells)

module _ (hash : ShardPayload → String) (policy_hash : String) (n : ℕ) where
  chunked_once :
      (k : String) (g : CellGroup) (fuel : ℕ) (cells : List CampaignCell)
      → length cells ≤ fuel
      → sharded_times k (shards_of_chunks hash policy_hash (suc n) g (chunks fuel (suc n) cells))
        ≡ times k (ids_of_cells cells)
  unfolding chunks shards_of_chunks
  chunked_once k g zero [] h = refl
  chunked_once k g zero (c ∷ cells) h = omega (arith, h)
  chunked_once k g (suc fuel) [] h = refl
  chunked_once k g (suc fuel) (c ∷ cells) h =
      let rest = chunked_once k g fuel (drop n cells) (omega (arith, h, length-drop n cells)) in
      let both = times-cells k (take n cells) (drop n cells) in
      let whole : times k (ids_of_cells (take n cells)) + times k (ids_of_cells (drop n cells))
          ≡ times k (ids_of_cells cells) =
        sym both ∙ ap (λ (z : List CampaignCell). times k (ids_of_cells z)) (take-drop n cells) in
      omega (arith, rest, whole)

  chunked-IsChunk :
      (g : CellGroup) (fuel : ℕ) (cells : List CampaignCell)
      → All
          (IsChunk (suc n))
          (shards_of_chunks hash policy_hash (suc n) g (chunks fuel (suc n) cells))
  unfolding chunks shards_of_chunks
  chunked-IsChunk g zero cells = tt
  chunked-IsChunk g (suc fuel) [] = tt
  chunked-IsChunk g (suc fuel) (c ∷ cells) = (
    record {
      some_cell = omega arith;
      within = omega (arith, length-ids (take n cells), length-take n cells);
    },
    chunked-IsChunk g fuel (drop n cells),
  )

  sharded_once :
      (k : String) (groups : List CellGroup)
      → sharded_times k (shards_of_groups hash policy_hash (suc n) groups) ≡ grouped_times k groups
  unfolding shards_of_groups
  sharded_once k [] = refl
  sharded_once k (g ∷ groups) = omega (
    arith,
    sharded_times-append k
        (shards_of_chunks hash policy_hash (suc n) g (chunks (length g.cells) (suc n) g.cells))
        (shards_of_groups hash policy_hash (suc n) groups),
    chunked_once k g (length g.cells) g.cells (omega arith),
    sharded_once k groups,
  )

  sharded-IsChunk :
      (groups : List CellGroup)
      → All (IsChunk (suc n)) (shards_of_groups hash policy_hash (suc n) groups)
  unfolding shards_of_groups
  sharded-IsChunk [] = tt
  sharded-IsChunk (g ∷ groups) =
      All-append (IsChunk (suc n)) _ _ (chunked-IsChunk g (length g.cells) g.cells)
        (sharded-IsChunk groups)

  -- With a shard size of at least one, the shards are a partition of the ready cells: every id is in
  -- the shards just as often as among the ready cells, and every shard has at least one cell and at
  -- most as many as the shard size.
  pub build_shards-once :
      (cells : List CampaignCell)
      → ((k : String)
          → sharded_times k (build_shards hash policy_hash (suc n) cells)
            ≡ times k (ids_of_cells (ready_cells cells)))
        × All (IsChunk (suc n)) (build_shards hash policy_hash (suc n) cells)
  build_shards-once cells =
      let groups = sort_by group_before (group_ready cells []) in
      (
        λ k. omega (
          arith,
          sharded_once k groups,
          sorted_once k (group_ready cells []),
          grouped_once k cells [],
        ),
        sharded-IsChunk groups,
      )
