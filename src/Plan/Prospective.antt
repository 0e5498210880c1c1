-- ===== src/Plan/Prospective.antt =====
-- `build_prospective_pilot_plan` of src/pelicanbench/prospective.py.
use Prim.Native.String.{compare}
use text.Mathlib.Text.{is_lt, starts_with}
use pelican_bench.Base.{
  ℕ, zero, suc, ◌+◌, ◌%◌, String, Bool, true, false, not, Option, none, some, List, [], ◌∷◌, ◌++◌,
  if◌then◌else◌, ltb, ◌==◌, ◌&&◌, is_none,
}
use pelican_bench.Base.Int.{ℤ}
use pelican_bench.Base.Lists.{length, any, select, sort_by}
use pelican_bench.Base.Dict.{get, collect}
use pelican_bench.Base.Text.{◌^^◌, take_chars}
use pelican_bench.Base.Attempt.{Attempt, returns, ◌>>=◌, ◌>>◌, refuse_if}

pub data PlanError : Type 0 where
  replicates_not_positive no_tasks bad_commitment unknown_cohort empty_panel : PlanError
  cells_not_unique : PlanError

-- `BenchmarkTask`, the fields that are read; `panel_id` is `str(task.metadata.get("panel_id"))`
pub record BenchmarkTask : Type 0 where
  pub task_id : String
  pub scenario_id : String
  pub prompt_id : String
  pub panel_id : String

pub record ExecutionStage : Type 0 where
  pub stage_id : String
  pub cohort_id : String
  pub task_panel_id : String

-- the model panel
pub record ModelPanel : Type 0 where
  pub cohorts : List (String × List String)
  pub execution_stages : List ExecutionStage

pub data PlanStatus : Type 0 where
  ready qualification_required : PlanStatus

pub record PlannedCell : Type 0 where
  pub cell_id : String
  pub stage_id : String
  pub cohort_id : String
  pub task_panel_id : String
  pub task_id : String
  pub scenario_id : String
  pub prompt_id : String
  pub model_id : String
  pub replicate : ℕ
  pub seed : ℕ
  pub status : PlanStatus

pub record ProspectiveStage : Type 0 where
  pub stage_id : String
  pub cohort_id : String
  pub task_panel_id : String
  pub task_count : ℕ
  pub model_count : ℕ
  pub cell_count : ℕ
  pub ready_cell_count : ℕ
  pub qualification_required_cell_count : ℕ

pub record ProspectivePlan : Type 0 where
  pub task_identity_commitment : String
  pub replicates : ℕ
  pub task_count : ℕ
  pub model_count : ℕ
  pub cell_count : ℕ
  pub ready_cell_count : ℕ
  pub qualification_required_cell_count : ℕ
  pub stages : List ProspectiveStage
  pub cells : List PlannedCell

-- What hashlib makes of the texts: the first 8 bytes of the digest that a seed is made of, and the
-- hexadecimal digest that an id is made of.
pub record PlanDigests : Type 0 where
  pub of_seed : (base_seed : ℤ) (stage_id model_id task_id : String) (replicate : ℕ) → ℕ
  pub of_cell : (stage_id model_id task_id : String) (replicate seed : ℕ) → String

abbrev pub is_ready : PlanStatus → Bool
is_ready ready = true
is_ready qualification_required = false

-- `Counter(item.status for item in cells)`, its two counts
unfoldable pub count_status : Bool → List PlannedCell → ℕ
count_status wanted [] = 0
count_status wanted (c ∷ cells) =
    (if is_ready c.status then (if wanted then 1 else 0) else (if wanted then 0 else 1))
    + count_status wanted cells

-- `range(1, replicates + 1)`, from the first of the `left` replicates
unfoldable pub replicates_from : ℕ → ℕ → List ℕ
replicates_from zero first = []
replicates_from (suc left) first = first ∷ replicates_from left (suc first)

-- `set.update`
unfoldable pub add_all : List String → List String → List String
add_all [] names = names
add_all (x ∷ xs) names =
    add_all xs (if any (λ (n : String). n == x) names then names else names ++ x ∷ [])

-- `len(identifiers) != len(set(identifiers))`, negated
unfoldable pub are_unique : List PlannedCell → Bool
are_unique [] = true
are_unique (c ∷ cells) =
    not (any (λ (x : PlannedCell). x.cell_id == c.cell_id) cells) && are_unique cells

abbrev pub task_before : BenchmarkTask → BenchmarkTask → Bool
task_before a b = is_lt (compare a.task_id b.task_id)

-- the tasks of a panel, by their ids
abbrev pub stage_tasks : String → List BenchmarkTask → List BenchmarkTask
stage_tasks panel tasks =
    sort_by task_before (select (λ (t : BenchmarkTask). t.panel_id == panel) tasks)

-- `qualification.get(model_id)`, as a truth value
abbrev pub is_qualified : List (String × Bool) → String → Bool
is_qualified qualification model = elim (get model qualification) [ none ↦ false | some b ↦ b ]

module _ (d : PlanDigests) (base_seed : ℤ) (replicates : ℕ)
    (qualification : List (String × Bool)) where
  -- `_stable_seed`
  abbrev pub stable_seed : String → String → String → ℕ → ℕ
  stable_seed stage model task replicate =
      d.of_seed base_seed stage model task replicate % 2147483647

  -- `_stable_cell_id`
  abbrev pub stable_cell_id : String → String → String → ℕ → ℕ → String
  stable_cell_id stage model task replicate seed =
      "PCEL-" ^^ take_chars 24 (d.of_cell stage model task replicate seed)

  abbrev pub planned_cell : ExecutionStage → String → BenchmarkTask → ℕ → PlannedCell
  planned_cell stage model task replicate =
      let seed = stable_seed stage.stage_id model task.task_id replicate in
      record {
        cell_id = stable_cell_id stage.stage_id model task.task_id replicate seed;
        stage_id = stage.stage_id;
        cohort_id = stage.cohort_id;
        task_panel_id = stage.task_panel_id;
        task_id = task.task_id;
        scenario_id = task.scenario_id;
        prompt_id = task.prompt_id;
        model_id = model;
        replicate = replicate;
        seed = seed;
        status = if is_qualified qualification model then ready else qualification_required;
      }

  -- the three nested loops
  unfoldable pub replicate_cells :
      ExecutionStage → String → BenchmarkTask → List ℕ → List PlannedCell
  replicate_cells stage model task [] = []
  replicate_cells stage model task (r ∷ rs) =
      planned_cell stage model task r ∷ replicate_cells stage model task rs

  unfoldable pub task_cells : ExecutionStage → String → List BenchmarkTask → List PlannedCell
  task_cells stage model [] = []
  task_cells stage model (t ∷ tasks) =
      replicate_cells stage model t (replicates_from replicates 1) ++ task_cells stage model tasks

  unfoldable pub model_cells : ExecutionStage → List String → List BenchmarkTask → List PlannedCell
  model_cells stage [] tasks = []
  model_cells stage (m ∷ models) tasks = task_cells stage m tasks ++ model_cells stage models tasks

  -- the variables of the loop over the stages
  pub record Planning : Type 0 where
    pub cells : List PlannedCell
    pub stages : List ProspectiveStage
    pub all_models : List String

  abbrev pub stage_summary : ExecutionStage → ℕ → ℕ → List PlannedCell → ProspectiveStage
  stage_summary stage task_count model_count cells = record {
    stage_id = stage.stage_id;
    cohort_id = stage.cohort_id;
    task_panel_id = stage.task_panel_id;
    task_count = task_count;
    model_count = model_count;
    cell_count = length cells;
    ready_cell_count = count_status true cells;
    qualification_required_cell_count = count_status false cells;
  }

  abbrev pub is_empty_tasks : List BenchmarkTask → Bool
  is_empty_tasks [] = true
  is_empty_tasks (_ ∷ _) = false

  abbrev pub models_of : Option (List String) → List String
  models_of none = []
  models_of (some models) = models

  -- one round of the loop
  unfoldable pub plan_stage :
      List (String × List String)
      → List BenchmarkTask
      → ExecutionStage
      → Planning
      → Attempt PlanError Planning
  plan_stage cohorts tasks stage p = do
    refuse_if (is_none (get stage.cohort_id cohorts)) unknown_cohort
    let chosen = stage_tasks stage.task_panel_id tasks
    refuse_if (is_empty_tasks chosen) empty_panel
    let models = models_of (get stage.cohort_id cohorts)
    let cells = model_cells stage models chosen
    returns (record {
      cells = p.cells ++ cells;
      stages = p.stages ++ stage_summary stage (length chosen) (length models) cells ∷ [];
      all_models = add_all models p.all_models;
    })

  unfoldable pub plan_stages :
      List (String × List String)
      → List BenchmarkTask
      → List ExecutionStage
      → Planning
      → Attempt PlanError Planning
  plan_stages cohorts tasks [] p = returns p
  plan_stages cohorts tasks (stage ∷ stages) p = do
    q ← plan_stage cohorts tasks stage p
    plan_stages cohorts tasks stages q

  abbrev pub plan_of : String → List BenchmarkTask → Planning → ProspectivePlan
  plan_of commitment tasks p = record {
    task_identity_commitment = commitment;
    replicates = replicates;
    task_count = length tasks;
    model_count = length p.all_models;
    cell_count = length p.cells;
    ready_cell_count = count_status true p.cells;
    qualification_required_cell_count = count_status false p.cells;
    stages = p.stages;
    cells = p.cells;
  }

  -- `build_prospective_pilot_plan`, without the digests of the inputs
  unfoldable pub build_prospective_pilot_plan :
      List BenchmarkTask → ModelPanel → String → Attempt PlanError ProspectivePlan
  build_prospective_pilot_plan tasks panel commitment = do
    refuse_if (ltb replicates 1) replicates_not_positive
    refuse_if (is_empty_tasks tasks) no_tasks
    refuse_if (not (starts_with commitment "sha256:")) bad_commitment
    let first : Planning = record { cells = []; stages = []; all_models = [] }
    p ← plan_stages (collect [] panel.cohorts) tasks panel.execution_stages first
    refuse_if (not (are_unique p.cells)) cells_not_unique
    returns (plan_of commitment tasks p)
