-- ===== src/Plan/Counts.antt =====
-- The cells of a plan (src/pelicanbench/prospective.py): how many there are, and what each is like.
use pelican_bench.Base.{
  ℕ, zero, suc, ◌+◌, ◌*◌, ◌≤◌, ◌<◌, ◌≡◌, refl, ap, Bool, true, false, not, String, List, [], ◌∷◌,
  ◌++◌, arith, ◌==◌, Bool-cases, inl, inr, &&-eq-true, eq_iff,
}
use pelican_bench.Base.Int.{ℤ}
use pelican_bench.Base.Lists.{length, any, All, length-append}
use pelican_bench.Plan.Prospective.{
  BenchmarkTask, ExecutionStage, PlannedCell, ProspectiveStage, PlanDigests, is_ready, count_status,
  replicates_from, are_unique, is_qualified, replicate_cells, task_cells, model_cells,
}

length-replicates_from : (n first : ℕ) → length (replicates_from n first) ≡ n
unfolding replicates_from
length-replicates_from zero first = refl
length-replicates_from (suc n) first = ap (λ (k : ℕ). suc k) (length-replicates_from n (suc first))

-- A cell is ready or requires a qualification.
pub statuses-total :
    (cells : List PlannedCell) → count_status true cells + count_status false cells ≡ length cells
unfolding count_status
statuses-total [] = omega arith
statuses-total (c ∷ cells) = elim (Bool-cases (is_ready c.status)) [
  | inl e ↦ rw e (omega (arith, statuses-total cells))
  | inr e ↦ rw e (omega (arith, statuses-total cells))
]

-- No id is the id of two cells.
abbrev pub AllDistinct : List PlannedCell → Type 0
AllDistinct [] = Unit
AllDistinct (c ∷ cells) =
    All (λ (x : PlannedCell). x.cell_id ≡ c.cell_id → ⊥) cells × AllDistinct cells

none_same :
    (k : String) (cells : List PlannedCell)
    → not (any (λ (x : PlannedCell). x.cell_id == k) cells) ≡ true
    → All (λ (x : PlannedCell). x.cell_id ≡ k → ⊥) cells
none_same k [] h = tt
none_same k (c ∷ cells) h = elim (Bool-cases (c.cell_id == k)) [
  | inl e ↦ absurd (no_other (rw e at h))
  | inr e ↦ ((λ same. clash e ((eq_iff c.cell_id k).1 same)), none_same k cells (rw e at h))
]
  where
    no_other : false ≡ true → ⊥
    no_other p = cc

    clash : {b : Bool} → b ≡ false → b ≡ true → ⊥
    clash p q = cc

pub unique-AllDistinct : (cells : List PlannedCell) → are_unique cells ≡ true → AllDistinct cells
unfolding are_unique
unique-AllDistinct [] h = tt
unique-AllDistinct (c ∷ cells) h =
    let (here, rest) =
      &&-eq-true (not (any (λ (x : PlannedCell). x.cell_id == c.cell_id) cells)) (are_unique cells)
        h in
    (none_same c.cell_id cells here, unique-AllDistinct cells rest)

-- the sum of the stages' cells
abbrev pub stage_total : List ProspectiveStage → ℕ
stage_total [] = 0
stage_total (s ∷ stages) = s.cell_count + stage_total stages

pub stage_total-append :
    (xs ys : List ProspectiveStage) → stage_total (xs ++ ys) ≡ stage_total xs + stage_total ys
stage_total-append [] ys = omega arith
stage_total-append (x ∷ xs) ys = omega (arith, stage_total-append xs ys)

-- A stage has a cell for every model, task and replicate, each ready or not.
pub record IsStage (replicates : ℕ) (s : ProspectiveStage) : Type 0 where
  pub product : s.cell_count ≡ s.model_count * (s.task_count * replicates)
  pub statuses : s.ready_cell_count + s.qualification_required_cell_count ≡ s.cell_count

more_times : (k n : ℕ) → n + k * n ≡ suc k * n
more_times k n = ground arith

module _ (d : PlanDigests) (base_seed : ℤ) (replicates : ℕ)
    (qualification : List (String × Bool)) where
  -- A cell's replicate and seed are in range, and it is ready just where its model is qualified.
  pub record IsCell (c : PlannedCell) : Type 0 where
    pub first : 1 ≤ c.replicate
    pub last : c.replicate ≤ replicates
    pub seeded : c.seed < 2147483647
    pub status : is_ready c.status ≡ is_qualified qualification c.model_id

  length-replicate_cells :
      (stage : ExecutionStage) (model : String) (t : BenchmarkTask) (rs : List ℕ)
      → length (replicate_cells d base_seed replicates qualification stage model t rs) ≡ length rs
  unfolding replicate_cells
  length-replicate_cells stage model t [] = refl
  length-replicate_cells stage model t (r ∷ rs) =
      ap (λ (k : ℕ). suc k) (length-replicate_cells stage model t rs)

  length-task_cells :
      (stage : ExecutionStage) (model : String) (tasks : List BenchmarkTask)
      → length (task_cells d base_seed replicates qualification stage model tasks)
        ≡ length tasks * replicates
  unfolding task_cells
  length-task_cells stage model [] = ground arith
  length-task_cells stage model (t ∷ tasks) = omega (
    arith,
    length-append
        (replicate_cells d base_seed replicates qualification stage model t
          (replicates_from replicates 1))
        (task_cells d base_seed replicates qualification stage model tasks),
    length-replicate_cells stage model t (replicates_from replicates 1),
    length-replicates_from replicates 1,
    length-task_cells stage model tasks,
    more_times (length tasks) replicates,
  )

  pub length-model_cells :
      (stage : ExecutionStage) (models : List String) (tasks : List BenchmarkTask)
      → length (model_cells d base_seed replicates qualification stage models tasks)
        ≡ length models * (length tasks * replicates)
  unfolding model_cells
  length-model_cells stage [] tasks = ground arith
  length-model_cells stage (m ∷ models) tasks = omega (
    arith,
    length-append (task_cells d base_seed replicates qualification stage m tasks)
        (model_cells d base_seed replicates qualification stage models tasks),
    length-task_cells stage m tasks,
    length-model_cells stage models tasks,
    more_times (length models) (length tasks * replicates),
  )
