-- ===== src/Tests/Plans.antt =====
-- The theorem on plans, at a panel of two models and one task.
use pelican_bench.Base.{◌+◌, ◌≡◌, refl, true, List, [], ◌∷◌}
use pelican_bench.Base.Int.{pos}
use pelican_bench.Base.Attempt.{Attempt, returns, raises}
use pelican_bench.Base.Dict.{get, put, collect}
use pelican_bench.Base.Text.{◌^^◌}
use pelican_bench.Plan.Prospective.{
  PlanError, BenchmarkTask, ExecutionStage, ModelPanel, ProspectivePlan, PlanDigests, count_status,
  replicates_from, add_all, are_unique, replicate_cells, task_cells, model_cells, plan_stage,
  plan_stages, build_prospective_pilot_plan,
}
use pelican_bench.Plan.Sound.{IsPlan, build_prospective_pilot_plan-IsPlan}
use pelican_bench.Tests.Samples.{unary}

abbrev digests : PlanDigests
digests = record {
  of_seed = λ base stage model task replicate. replicate + 5;
  of_cell = λ stage model task replicate seed. model ^^ task ^^ unary replicate;
}

abbrev pilot : ExecutionStage
pilot = record { stage_id = "pilot"; cohort_id = "open"; task_panel_id = "core" }

abbrev first_task : BenchmarkTask
first_task = record { task_id = "t1"; scenario_id = "s1"; prompt_id = "p1"; panel_id = "core" }

abbrev tasks : List BenchmarkTask
tasks =
    first_task
    ∷ record { task_id = "t2"; scenario_id = "s1"; prompt_id = "p2"; panel_id = "other" }
    ∷ []

abbrev panel : ModelPanel
panel = record { cohorts = ("open", "m1" ∷ "m2" ∷ []) ∷ []; execution_stages = pilot ∷ [] }

abbrev planned : Attempt PlanError ProspectivePlan
planned = build_prospective_pilot_plan digests (pos 7) 3 (("m1", true) ∷ []) tasks panel "sha256:aa"

abbrev plan_value : Attempt PlanError ProspectivePlan → ProspectivePlan
plan_value (returns p) = p
plan_value (raises _) = record {
  task_identity_commitment = "";
  replicates = 0;
  task_count = 0;
  model_count = 0;
  cell_count = 0;
  ready_cell_count = 0;
  qualification_required_cell_count = 0;
  stages = [];
  cells = [];
}

planned_ok : planned ≡ returns (plan_value planned)
unfolding get put collect count_status replicates_from add_all are_unique replicate_cells task_cells
    model_cells plan_stage plan_stages build_prospective_pilot_plan
planned_ok = refl

-- two models, one task of the panel, three replicates
planned_cells : (plan_value planned).cell_count ≡ 6
unfolding get put collect count_status replicates_from add_all are_unique replicate_cells task_cells
    model_cells plan_stage plan_stages build_prospective_pilot_plan
planned_cells = refl

build_prospective_pilot_plan-IsPlan_example :
    IsPlan digests (pos 7) 3 (("m1", true) ∷ []) (plan_value planned)
build_prospective_pilot_plan-IsPlan_example =
    build_prospective_pilot_plan-IsPlan digests (pos 7) 3 (("m1", true) ∷ []) tasks panel
      "sha256:aa" (plan_value planned) planned_ok
