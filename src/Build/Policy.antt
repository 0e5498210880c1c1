-- ===== src/Build/Policy.antt =====
-- The checks that `CampaignPolicy` and `PriceSchedule` of src/pelicanbench/campaign.py make of their
-- fields (`__post_init__`), and the states that `_cell_state` knows. Numbers are counted as in the
-- parent, and finite here: every test of a NaN is False but that of `reserve_fraction`.
use pelican_bench.Base.{String, Bool, false, Option, none, some, if◌then◌else◌, ◌||◌, ◌==◌}
use pelican_bench.Base.Int.{ℤ, pos, ltb_ℤ}
use pelican_bench.Base.Text.{is_empty, is_blank}
use pelican_bench.Campaign.{
  CellState, blocked_qualification, blocked_price, ready, leased, succeeded, failed, quarantined,
  cancelled,
}

pub data PolicyError : Type 0 where
  shard_size_not_positive max_parallel_not_positive negative_tokens reserve_out_of_range :
      PolicyError
  budget_not_positive blank_explanation negative_price price_currency_required : PolicyError

-- the fields of `CampaignPolicy` that are checked
pub record PolicyFields : Type 0 where
  pub shard_size : ℤ
  pub max_parallel_per_model : ℤ
  pub default_input_tokens : ℤ
  pub default_output_tokens : ℤ
  pub reserve_fraction : ℤ
  pub hard_budget : Option ℤ
  pub price_policy : String
  pub failure_policy : String

abbrev pub not_positive : Option ℤ → Bool
not_positive none = false
not_positive (some budget) = ltb_ℤ budget (pos 1)

-- `CampaignPolicy.__post_init__`
unfoldable pub check_policy : PolicyFields → Option PolicyError
check_policy p =
    if ltb_ℤ p.shard_size (pos 1)
    then some shard_size_not_positive
    else if ltb_ℤ p.max_parallel_per_model (pos 1)
    then some max_parallel_not_positive
    else if ltb_ℤ p.default_input_tokens (pos 0) || ltb_ℤ p.default_output_tokens (pos 0)
    then some negative_tokens
    else if ltb_ℤ p.reserve_fraction (pos 0) || ltb_ℤ (pos 1000000) p.reserve_fraction
    then some reserve_out_of_range
    else if not_positive p.hard_budget
    then some budget_not_positive
    else if is_blank p.price_policy || is_blank p.failure_policy
    then some blank_explanation
    else none

-- `PriceSchedule.__post_init__`
unfoldable pub check_price : ℤ → ℤ → ℤ → String → Option PolicyError
check_price input output fee currency =
    if ltb_ℤ input (pos 0) || ltb_ℤ output (pos 0) || ltb_ℤ fee (pos 0)
    then some negative_price
    else if is_empty currency
    then some price_currency_required
    else none

-- `_cell_state`, and `_state` of src/pelicanbench/campaign_store.py
unfoldable pub state_of_text : String → Option CellState
state_of_text t =
    if t == "blocked-qualification"
    then some blocked_qualification
    else if t == "blocked-price"
    then some blocked_price
    else if t == "ready"
    then some ready
    else if t == "leased"
    then some leased
    else if t == "succeeded"
    then some succeeded
    else if t == "failed"
    then some failed
    else if t == "quarantined"
    then some quarantined
    else if t == "cancelled"
    then some cancelled
    else none
