-- ===== src/Plan/Sound.antt =====
-- What a plan that `build_prospective_pilot_plan` (src/pelicanbench/prospective.py) returns is like.
use pelican_bench.Base.{
  ℕ, zero, suc, ◌+◌, ◌≤◌, ◌<◌, ◌%◌, ◌≡◌, refl, subst, Bool, true, false, not, String, List, [], ◌∷◌,
  arith, ltb, is_none, if◌then◌else◌,
}
use text.Mathlib.Text.{starts_with}
use pelican_bench.Base.Int.{ℤ}
use pelican_bench.Base.Lists.{length, All, All-append, All-map, length-append}
use pelican_bench.Base.Dict.{get, collect}
use pelican_bench.Base.Attempt.{returns, returns-injective, refuse_if_returns, >>=-eq-returns}
use pelican_bench.Plan.Prospective.{
  replicates_not_positive, no_tasks, bad_commitment, unknown_cohort, empty_panel, cells_not_unique,
  BenchmarkTask, ExecutionStage, ModelPanel, PlanStatus, ProspectivePlan, PlanDigests, is_ready,
  replicates_from, are_unique, stage_tasks, is_qualified, replicate_cells, task_cells, model_cells,
  Planning, stage_summary, is_empty_tasks, models_of, plan_stage, plan_stages,
  build_prospective_pilot_plan,
}
use pelican_bench.Plan.Counts.{
  AllDistinct, unique-AllDistinct, statuses-total, stage_total, stage_total-append, IsStage, IsCell,
  length-model_cells,
}

in_range : (n first : ℕ) → All (λ (r : ℕ). (first ≤ r) × (r < first + n)) (replicates_from n first)
unfolding replicates_from
in_range zero first = tt
in_range (suc n) first = (
  (omega arith, omega arith),
  All-map (λ (r : ℕ). (suc first ≤ r) × (r < suc first + n))
      (λ (r : ℕ). (first ≤ r) × (r < first + suc n)) (replicates_from n (suc first))
      (λ r h. (omega (arith, h.0), omega (arith, h.1))) (in_range n (suc first)),
)

small_seed : (n : ℕ) → n % 2147483647 < 2147483647
small_seed n = ground arith

status_test :
    (b : Bool) → is_ready (if b then PlanStatus.ready else PlanStatus.qualification_required) ≡ b
status_test true = refl
status_test false = refl

module _ (d : PlanDigests) (base_seed : ℤ) (replicates : ℕ)
    (qualification : List (String × Bool)) where
  replicate_cells-IsCell :
      (stage : ExecutionStage) (model : String) (t : BenchmarkTask) (rs : List ℕ)
      → All (λ (r : ℕ). (1 ≤ r) × (r < 1 + replicates)) rs
      → All
          (IsCell d base_seed replicates qualification)
          (replicate_cells d base_seed replicates qualification stage model t rs)
  unfolding replicate_cells
  replicate_cells-IsCell stage model t [] h = tt
  replicate_cells-IsCell stage model t (r ∷ rs) h = (
    record {
      first = h.0.0;
      last = omega (arith, h.0.1);
      seeded = small_seed (d.of_seed base_seed stage.stage_id model t.task_id r);
      status = status_test (is_qualified qualification model);
    },
    replicate_cells-IsCell stage model t rs h.1,
  )

  task_cells-IsCell :
      (stage : ExecutionStage) (model : String) (tasks : List BenchmarkTask)
      → All
          (IsCell d base_seed replicates qualification)
          (task_cells d base_seed replicates qualification stage model tasks)
  unfolding task_cells
  task_cells-IsCell stage model [] = tt
  task_cells-IsCell stage model (t ∷ tasks) =
      All-append (IsCell d base_seed replicates qualification) _ _
        (replicate_cells-IsCell stage model t (replicates_from replicates 1)
          (in_range replicates 1))
        (task_cells-IsCell stage model tasks)

  model_cells-IsCell :
      (stage : ExecutionStage) (models : List String) (tasks : List BenchmarkTask)
      → All
          (IsCell d base_seed replicates qualification)
          (model_cells d base_seed replicates qualification stage models tasks)
  unfolding model_cells
  model_cells-IsCell stage [] tasks = tt
  model_cells-IsCell stage (m ∷ models) tasks =
      All-append (IsCell d base_seed replicates qualification) _ _ (task_cells-IsCell stage m tasks)
        (model_cells-IsCell stage models tasks)

  -- what the loop over the stages keeps
  record IsPlanning (p : Planning d base_seed replicates qualification) : Type 0 where
    pub total : length p.cells ≡ stage_total p.stages
    pub stages : All (IsStage replicates) p.stages
    pub cells : All (IsCell d base_seed replicates qualification) p.cells

  -- What a returned plan is like: its stages are products, its counts are sums over the stages, its cells
  -- are in range and have different ids.
  pub record IsPlan (p : ProspectivePlan) : Type 0 where
    pub total : p.cell_count ≡ stage_total p.stages
    pub statuses : p.ready_cell_count + p.qualification_required_cell_count ≡ p.cell_count
    pub stages : All (IsStage replicates) p.stages
    pub cells : All (IsCell d base_seed replicates qualification) p.cells
    pub distinct : AllDistinct p.cells

  plan_stage-IsPlanning :
      (cohorts : List (String × List String)) (tasks : List BenchmarkTask) (stage : ExecutionStage)
      (p q : Planning d base_seed replicates qualification)
      → IsPlanning p
      → plan_stage d base_seed replicates qualification cohorts tasks stage p ≡ returns q
      → IsPlanning q
  unfolding plan_stage
  plan_stage-IsPlanning cohorts tasks stage p q h done =
      let (_, h₁) =
        refuse_if_returns (is_none (get stage.cohort_id cohorts)) unknown_cohort _ done in
      let chosen = stage_tasks stage.task_panel_id tasks in
      let (_, h₂) =
        refuse_if_returns (is_empty_tasks d base_seed replicates qualification chosen) empty_panel _
          h₁ in
      let models = models_of d base_seed replicates qualification (get stage.cohort_id cohorts) in
      let cells = model_cells d base_seed replicates qualification stage models chosen in
      let summary =
        stage_summary d base_seed replicates qualification stage (length chosen) (length models)
          cells in
      subst IsPlanning (returns-injective h₂) (record {
        total = omega (
          arith,
          length-append p.cells cells,
          stage_total-append p.stages (summary ∷ []),
          h.total,
        );
        stages = All-append (IsStage replicates) p.stages (summary ∷ []) h.stages (
          record {
            product = length-model_cells d base_seed replicates qualification stage models chosen;
            statuses = statuses-total cells;
          },
          tt,
        );
        cells =
            All-append (IsCell d base_seed replicates qualification) p.cells cells h.cells
              (model_cells-IsCell stage models chosen);
      })

  plan_stages-IsPlanning :
      (cohorts : List (String × List String)) (tasks : List BenchmarkTask)
      (stages : List ExecutionStage) (p q : Planning d base_seed replicates qualification)
      → IsPlanning p
      → plan_stages d base_seed replicates qualification cohorts tasks stages p ≡ returns q
      → IsPlanning q
  unfolding plan_stages
  plan_stages-IsPlanning cohorts tasks [] p q h done = subst IsPlanning (returns-injective done) h
  plan_stages-IsPlanning cohorts tasks (stage ∷ stages) p q h done =
      let (p₁, first, rest) =
        >>=-eq-returns (plan_stage d base_seed replicates qualification cohorts tasks stage p) _
          done in
      plan_stages-IsPlanning cohorts tasks stages p₁ q
        (plan_stage-IsPlanning cohorts tasks stage p p₁ h first) rest

  -- A plan that is returned has, for each stage, as many cells as the product of its models, its tasks
  -- and the replicates, and the plan's count of cells is their sum; ready cells and cells that require a
  -- qualification add up to it. Each cell's replicate is from 1 to the replicates, its seed is below
  -- 2 ^ 31 - 1, it is ready just where its model is qualified, and no two cells have the same id.
  pub build_prospective_pilot_plan-IsPlan :
      (tasks : List BenchmarkTask) (panel : ModelPanel) (commitment : String)
      (plan : ProspectivePlan)
      → build_prospective_pilot_plan d base_seed replicates qualification tasks panel commitment
        ≡ returns plan
      → IsPlan plan
  unfolding build_prospective_pilot_plan
  build_prospective_pilot_plan-IsPlan tasks panel commitment plan h =
      let (_, h₁) = refuse_if_returns (ltb replicates 1) replicates_not_positive _ h in
      let (_, h₂) =
        refuse_if_returns (is_empty_tasks d base_seed replicates qualification tasks) no_tasks _
          h₁ in
      let (_, h₃) =
        refuse_if_returns (not (starts_with commitment "sha256:")) bad_commitment _ h₂ in
      let first : Planning d base_seed replicates qualification = record {
        cells = [];
        stages = [];
        all_models = [];
      } in
      let (p, planned, h₄) =
        >>=-eq-returns
          (plan_stages d base_seed replicates qualification (collect [] panel.cohorts) tasks
            panel.execution_stages first)
          _ h₃ in
      let (unique, end) = refuse_if_returns (not (are_unique p.cells)) cells_not_unique _ h₄ in
      let k =
        plan_stages-IsPlanning (collect [] panel.cohorts) tasks panel.execution_stages first p
          (record { total = refl; stages = tt; cells = tt }) planned in
      subst IsPlan (returns-injective end) (record {
        total = k.total;
        statuses = statuses-total p.cells;
        stages = k.stages;
        cells = k.cells;
        distinct = unique-AllDistinct p.cells (not_false (are_unique p.cells) unique);
      })
    where
      not_false : (b : Bool) → not b ≡ false → b ≡ true
      not_false true h = refl
      not_false false h = cc
