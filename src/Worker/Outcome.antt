-- ===== src/Worker/Outcome.antt =====
-- `_reported_cost`, `_cost_for_result` and `_terminal_outcome` of src/pelicanbench/campaign_worker.py,
-- with what they read of a `RunResult` (src/pelicanbench/runner.py).
use pelican_bench.Base.{ℕ, String, Bool, false, not, Option, none, some, List, [], ◌∷◌, ◌++◌}
use pelican_bench.Base.Int.{ℤ, pos}
use pelican_bench.Base.Lists.{select}
use pelican_bench.Base.Dict.{get}
use pelican_bench.Base.Text.{◌^^◌}
use pelican_bench.Campaign.{CellState, succeeded, quarantined, failed}
use pelican_bench.Store.Result.{ok, err}
use pelican_bench.Store.Money.{Amount, round8, round8_ℤ}
use pelican_bench.Store.Tables.{StoreLease}
use pelican_bench.Store.Holder.{finite_cost}

-- a value in the metadata of an adapter: None, a bool, what `float` makes of it, or what it refuses
pub data MetadataValue : Type 0 where
  missing : MetadataValue
  boolean : Bool → MetadataValue
  number : Amount → MetadataValue
  no_number : MetadataValue

-- `metadata["usage"]`, where it is a mapping
pub record Usage : Type 0 where
  pub cost_usd : MetadataValue
  pub cost : MetadataValue

pub record Metadata : Type 0 where
  pub actual_cost : MetadataValue
  pub cost_usd : MetadataValue
  pub cost : MetadataValue
  pub usage : Option Usage

pub record Trial : Type 0 where
  pub artifact_id : Option String
  pub metadata : Metadata

pub record Failure : Type 0 where
  pub error_type : Option String
  pub error_message : Option String

-- `rest` stands for the other fields of a scorecard, which only its digest covers
pub record Scorecard : Type 0 where
  pub critical_gates : List (String × Bool)
  pub rest : String

pub record RunResult : Type 0 where
  pub run_id : String
  pub trials : List Trial
  pub scorecards : List Scorecard
  pub failures : List Failure

-- the amount that is returned, or None, or the ValueError
pub data Reported : Type 0 where
  amount : ℕ → Reported
  nothing : Reported
  invalid : Reported

abbrev pub usage_candidates : Option Usage → List MetadataValue
usage_candidates none = []
usage_candidates (some u) = u.cost_usd ∷ u.cost ∷ []

abbrev pub cost_candidates : Metadata → List MetadataValue
cost_candidates d = (d.actual_cost ∷ d.cost_usd ∷ d.cost ∷ []) ++ usage_candidates d.usage

-- the loop over the candidates
abbrev pub first_cost : List MetadataValue → Reported
first_cost [] = nothing
first_cost (missing ∷ rest) = first_cost rest
first_cost (boolean _ ∷ rest) = first_cost rest
first_cost (no_number ∷ rest) = first_cost rest
first_cost (number a ∷ rest) = elim (finite_cost a) [ err _ ↦ invalid | ok n ↦ amount n ]

-- `_reported_cost`
unfoldable pub reported_cost : Metadata → Reported
reported_cost d = first_cost (cost_candidates d)

-- `metadata` of `_cost_for_result`, which is empty without a trial
abbrev pub first_metadata : List Trial → Metadata
first_metadata [] = record {
  actual_cost = missing;
  cost_usd = missing;
  cost = missing;
  usage = none;
}
first_metadata (t ∷ _) = t.metadata

-- `_cost_for_result`
unfoldable pub cost_for_result : StoreLease → RunResult → ℤ × String
cost_for_result lease result = elim (reported_cost (first_metadata result.trials)) [
  | invalid ↦ (round8_ℤ lease.estimated_cost, "invalid-reported-cost-fallback")
  | amount n ↦ (pos (round8 n), "adapter-reported")
  | nothing ↦ (round8_ℤ lease.estimated_cost, "reserved-estimate")
]

pub record TerminalOutcome : Type 0 where
  pub state : CellState
  pub reason : String
  pub error_type : Option String
  pub error_message : Option String

abbrev pub retention_gates : List String
retention_gates = "safe_and_parseable" ∷ "nonblank_render" ∷ "judge_input_safe" ∷ []

-- `score.critical_gates.get(name, False)`
abbrev pub gate_holds : Scorecard → String → Bool
gate_holds score name = elim (get name score.critical_gates) [ none ↦ false | some b ↦ b ]

abbrev pub failed_gates : Scorecard → List String
failed_gates score = select (λ (name : String). not (gate_holds score name)) retention_gates

-- `",".join(...)`
abbrev pub join_commas : List String → String
join_commas [] = ""
join_commas (a ∷ []) = a
join_commas (a ∷ b ∷ rest) = a ^^ "," ^^ join_commas (b ∷ rest)

abbrev pub scored_outcome : Scorecard → TerminalOutcome
scored_outcome score = elim (failed_gates score) [
  | [] ↦ record {
    state = succeeded;
    reason = "canonical-artifact-retained";
    error_type = none;
    error_message = none;
  }
  | gate ∷ gates ↦ record {
    state = quarantined;
    reason = "artifact-failed-retention-gates:" ^^ join_commas (gate ∷ gates);
    error_type = none;
    error_message = none;
  }
]

abbrev pub no_outcome : TerminalOutcome
no_outcome = record {
  state = failed;
  reason = "runner-produced-no-outcome";
  error_type = some "RuntimeError";
  error_message = some "missing run outcome";
}

-- `_terminal_outcome`
unfoldable pub terminal_outcome : RunResult → TerminalOutcome
terminal_outcome result = elim result.failures [
  | failure ∷ _ ↦ record {
    state = failed;
    reason = "generation-failed";
    error_type = failure.error_type;
    error_message = failure.error_message;
  }
  | [] ↦ elim result.trials [
    | [] ↦ no_outcome
    | _ ∷ _ ↦ elim result.scorecards [ [] ↦ no_outcome | score ∷ _ ↦ scored_outcome score ]
  ]
]
