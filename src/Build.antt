-- ===== src/Build.antt =====
-- The cells and the budget gate that `build_campaign_manifest` of src/pelicanbench/campaign.py makes
-- of a plan (src/pelicanbench/prospective.py), from the prices and the policy. Prices are counted in
-- 10 ^ -6 of the currency for each million tokens, so that a token costs whole units of 10 ^ -12, and
-- the reserve in 10 ^ -6. Prices and budgets may be NaN or infinite: the code's checks let these pass.
pub mod Policy
pub mod Gate
pub mod Shards
pub mod Partition
pub mod Members
use pelican_bench.Base.{
  ℕ, zero, suc, ◌+◌, ◌*◌, ◌≤◌, ◌<◌, String, ◌≡◌, refl, sym, Bool, true, false, not, Option, none,
  some, List, [], ◌∷◌, arith, if◌then◌else◌, ltb, eqb, leb, ◌==◌, ◌&&◌, ◌||◌, is_none, Bool-cases,
  Option-cases, eqb_iff, ◌⊎◌, ap, ◌∙◌, inl, inr,
}
use Prim.Native.String.{compare}
use text.Mathlib.Text.{is_lt}
use pelican_bench.Base.Int.{ℤ, pos, pos_part}
use pelican_bench.Base.Lists.{All, all, sort_by}
use pelican_bench.Base.Dict.{get, put}
use pelican_bench.Base.Text.{is_empty, is_blank}
use pelican_bench.Campaign.{CellState, ready, blocked_qualification, blocked_price, same_state}
use pelican_bench.Store.Queries.{one_if}

-- what is wrong with an argument
pub data BuildError : Type 0 where
  duplicate_price mixed_currencies currency_mismatch : BuildError

-- A float that is not below zero: a number, infinity, or NaN, for which `value < 0` is False.
pub data Price : Type 0 where
  finite : ℕ → Price
  infinite nan : Price

-- `a + b`
abbrev pub plus_price : Price → Price → Price
plus_price nan b = nan
plus_price infinite nan = nan
plus_price infinite infinite = infinite
plus_price infinite (finite b) = infinite
plus_price (finite a) nan = nan
plus_price (finite a) infinite = infinite
plus_price (finite a) (finite b) = finite (a + b)

-- `n * a`, for an int
abbrev pub times_price : ℕ → Price → Price
times_price n nan = nan
times_price zero infinite = nan
times_price (suc n) infinite = infinite
times_price n (finite a) = finite (n * a)

-- A price that passed `__post_init__`.
pub record PriceSchedule : Type 0 where
  pub model_id : String
  pub currency : String
  pub input_per_million : Price
  pub output_per_million : Price
  pub request_fee : Price

-- `CampaignPolicy`, the fields that the cells and the gate depend on; NaN and infinity pass the check
-- `hard_budget <= 0`
pub record CampaignPolicy : Type 0 where
  pub default_input_tokens : ℕ
  pub default_output_tokens : ℕ
  pub reserve_fraction : ℕ
  pub hard_budget : Option Price
  pub currency : String
  pub require_price_schedule : Bool
  pub require_hard_budget_before_execution : Bool

-- `ProspectiveCell`, the fields that are read
pub record ProspectiveCell : Type 0 where
  pub cell_id : String
  pub stage_id : String
  pub model_id : String
  pub task_id : String
  pub replicate : ℕ
  pub seed : ℕ

-- `CampaignCell` as it is built, with an estimate that may be no number
pub record BuiltCell : Type 0 where
  pub cell_id : String
  pub stage_id : String
  pub model_id : String
  pub task_id : String
  pub replicate : ℕ
  pub seed : ℕ
  pub state : CellState
  pub estimated_cost : Option Price

-- `PriceSchedule.estimate`
unfoldable pub price_estimate : PriceSchedule → ℕ → ℕ → Price
price_estimate p input_tokens output_tokens =
    plus_price (plus_price p.request_fee (times_price input_tokens p.input_per_million))
      (times_price output_tokens p.output_per_million)

-- the loop of `_prices_by_model`; none is a duplicate
unfoldable pub price_entries :
    List PriceSchedule → List (String × PriceSchedule) → Option (List (String × PriceSchedule))
price_entries [] output = some output
price_entries (item ∷ items) output =
    let rest = price_entries items (put item.model_id item output) in
    if is_none (get item.model_id output) then rest else none

-- `len({item.currency for item in output.values()}) <= 1`
unfoldable pub one_currency : String → List (String × PriceSchedule) → Bool
one_currency currency entries =
    all (λ (e : String × PriceSchedule). e.1.currency == currency) entries

-- the order of (stage_id, model_id, task_id, replicate)
unfoldable pub plan_before : ProspectiveCell → ProspectiveCell → Bool
plan_before a b =
    is_lt (compare a.stage_id b.stage_id)
    || (a.stage_id == b.stage_id)
      && (is_lt (compare a.model_id b.model_id)
          || (a.model_id == b.model_id)
            && (is_lt (compare a.task_id b.task_id)
                || (a.task_id == b.task_id) && ltb a.replicate b.replicate))

module _ (policy : CampaignPolicy) (prices : List (String × PriceSchedule))
    (qualified : String → Bool) where
  -- the state of a new cell
  abbrev pub first_state : ProspectiveCell → CellState
  first_state source =
      if not (qualified source.model_id)
      then blocked_qualification
      else if policy.require_price_schedule && is_none (get source.model_id prices)
      then blocked_price
      else ready

  abbrev pub first_estimate : ProspectiveCell → Option Price
  first_estimate source = elim (get source.model_id prices) [
    | none ↦ none
    | some price ↦
        some (price_estimate price policy.default_input_tokens policy.default_output_tokens)
  ]

  abbrev pub cell_of : ProspectiveCell → BuiltCell
  cell_of source = record {
    cell_id = source.cell_id;
    stage_id = source.stage_id;
    model_id = source.model_id;
    task_id = source.task_id;
    replicate = source.replicate;
    seed = source.seed;
    state = first_state source;
    estimated_cost = first_estimate source;
  }

  unfoldable pub cells_of : List ProspectiveCell → List BuiltCell
  cells_of [] = []
  cells_of (source ∷ sources) = cell_of source ∷ cells_of sources

  -- the loop that makes the cells
  abbrev pub build_cells : List ProspectiveCell → List BuiltCell
  build_cells sources = cells_of (sort_by plan_before sources)

-- `item.estimated_cost or 0.0`
abbrev pub known_estimate : Option Price → Price
known_estimate none = finite 0
known_estimate (some e) = e

-- `known_cost`
unfoldable pub known_cost : List BuiltCell → Price
known_cost [] = finite 0
known_cost (c ∷ cells) = plus_price (known_estimate c.estimated_cost) (known_cost cells)

-- `unknown_cost_cells`
unfoldable pub unknown_cost_cells : List BuiltCell → ℕ
unknown_cost_cells [] = 0
unknown_cost_cells (c ∷ cells) =
    one_if (same_state c.state ready && is_none c.estimated_cost) + unknown_cost_cells cells

-- `cost_with_reserve > hard_budget`, with both sides in 10 ^ -18; False where one is NaN
abbrev pub is_over : CampaignPolicy → Price → Price → Bool
is_over policy nan budget = false
is_over policy infinite nan = false
is_over policy infinite infinite = false
is_over policy infinite (finite b) = true
is_over policy (finite cost) nan = false
is_over policy (finite cost) infinite = false
is_over policy (finite cost) (finite b) =
    ltb (b * 1000000) (cost * (1000000 + policy.reserve_fraction))

pub data BudgetGate : Type 0 where
  blocked_unknown_prices blocked_budget_exceeded blocked_no_hard_budget : BudgetGate
  advisory_no_hard_budget pass : BudgetGate

-- `budget_gate`
unfoldable pub budget_gate : CampaignPolicy → List BuiltCell → BudgetGate
budget_gate policy cells =
    if not (eqb (unknown_cost_cells cells) 0)
    then blocked_unknown_prices
    else elim policy.hard_budget [
      | none ↦
          if policy.require_hard_budget_before_execution
          then blocked_no_hard_budget
          else advisory_no_hard_budget
      | some budget ↦
          if is_over policy (known_cost cells) budget then blocked_budget_exceeded else pass
    ]

-- the tests of the currencies, in `_prices_by_model` and after it
unfoldable pub check_currency : String → List (String × PriceSchedule) → Option BuildError
check_currency wanted [] = none
check_currency wanted (entry ∷ entries) =
    if not (one_currency entry.1.currency entries)
    then some mixed_currencies
    else if not (entry.1.currency == wanted)
    then some currency_mismatch
    else none

-- the manifest's cells and its gate, or what is wrong with the prices
pub data Built : Type 0 where
  built : List BuiltCell → BudgetGate → Built
  refused : BuildError → Built

-- `build_campaign_manifest`, as far as the cells and the gate go
unfoldable pub build_campaign :
    CampaignPolicy → List PriceSchedule → (String → Bool) → List ProspectiveCell → Built
build_campaign policy prices qualified sources = elim (price_entries prices []) [
  | none ↦ refused duplicate_price
  | some entries ↦ elim (check_currency policy.currency entries) [
    | some e ↦ refused e
    | none ↦
        built (build_cells policy entries qualified sources)
          (budget_gate policy (build_cells policy entries qualified sources))
  ]
]
