-- ===== src/Build/Gate.antt =====
-- What the budget gate of `build_campaign_manifest` (src/pelicanbench/campaign.py) promises.
use pelican_bench.Base.{
  none, Option, ℕ, ltb, ◌+◌, ◌*◌, ◌≤◌, String, ◌≡◌, refl, sym, Bool, true, false, some, List, [],
  ◌∷◌, arith, eqb, is_none, Bool-cases, Option-cases, eqb_iff, ◌⊎◌, ap, ◌∙◌, inl, inr,
}
use pelican_bench.Base.Lists.{All}
use pelican_bench.Campaign.{ready, same_state}
use pelican_bench.Build.{
  BuildError, Price, finite, infinite, nan, plus_price, BuiltCell, duplicate_price, PriceSchedule,
  CampaignPolicy, ProspectiveCell, price_entries, build_cells, known_cost, known_estimate,
  unknown_cost_cells, is_over, BudgetGate, blocked_unknown_prices, blocked_budget_exceeded,
  blocked_no_hard_budget, advisory_no_hard_budget, pass, budget_gate, check_currency, built,
  refused, build_campaign,
}

-- a cell that is ready has an estimate
abbrev pub IsPriced : BuiltCell → Type 0
IsPriced c = same_state c.state ready ≡ true → is_none c.estimated_cost ≡ false

All-IsPriced : (cells : List BuiltCell) → unknown_cost_cells cells ≡ 0 → All IsPriced cells
unfolding unknown_cost_cells
All-IsPriced [] h = tt
All-IsPriced (c ∷ cells) h =
    (λ open_cell. ground (arith, h, open_cell), All-IsPriced cells (omega (arith, h)))

abbrev pub IsNumber : Option Price → Type 0
IsNumber none = Unit
IsNumber (some (finite n)) = Unit
IsNumber (some infinite) = ⊥
IsNumber (some nan) = ⊥

-- The estimate of a cell is NaN.
abbrev pub SomeNan : List BuiltCell → Type 0
SomeNan [] = ⊥
SomeNan (c ∷ cells) = (c.estimated_cost ≡ some nan) ⊎ SomeNan cells

-- The sum of the estimates that are numbers.
abbrev pub estimated : List BuiltCell → ℕ
estimated [] = 0
estimated (c ∷ cells) = elim c.estimated_cost [
  | none ↦ estimated cells
  | some e ↦ elim e [
    | finite n ↦ n + estimated cells
    | infinite ↦ estimated cells
    | nan ↦ estimated cells
  ]
]

-- The estimates are within a budget that is a number, or one of them is NaN.
abbrev pub WithinBudget : ℕ → List BuiltCell → Price → Type 0
WithinBudget reserve cells nan = Unit
WithinBudget reserve cells infinite = Unit
WithinBudget reserve cells (finite limit) =
    SomeNan cells
    ⊎ (All (λ (c : BuiltCell). IsNumber c.estimated_cost) cells
        × (estimated cells * (1000000 + reserve) ≤ limit * 1000000))

-- Every cell that is ready has an estimate, there is a hard budget, and the sum of the estimates, with
-- the reserve on top, is within it, unless one of these is NaN.
pub record Passes (policy : CampaignPolicy) (cells : List BuiltCell) : Type 0 where
  pub priced : All IsPriced cells
  pub budget : Price
  pub hard : policy.hard_budget ≡ some budget
  pub within : WithinBudget policy.reserve_fraction cells budget

-- What the code's sum of the estimates is.
Summed : List BuiltCell → Price → Type 0
Summed cells total =
    ((total ≡ nan) × SomeNan cells)
    ⊎ ((total ≡ infinite)
        ⊎ ((total ≡ finite (estimated cells))
            × All (λ (c : BuiltCell). IsNumber c.estimated_cost) cells))

Summed-plus :
    (c : BuiltCell) (cells : List BuiltCell) (e : Option Price) (total : Price)
    → c.estimated_cost ≡ e
    → Summed cells total
    → Summed (c ∷ cells) (plus_price (known_estimate e) total)
unfolding Summed
Summed-plus c cells (some nan) total at h = inl (refl, inl at)
Summed-plus c cells none total at (inl (same, some_nan)) = rw (same, at) (inl (refl, inr some_nan))
Summed-plus c cells none total at (inr (inl same)) = rw (same, at) (inr (inl refl))
Summed-plus c cells none total at (inr (inr (same, numbers))) =
    rw (same, at) (inr (inr (ap (λ (n : ℕ). finite n) (omega arith), (tt, numbers))))
Summed-plus c cells (some infinite) total at (inl (same, some_nan)) =
    rw (same, at) (inl (refl, inr some_nan))
Summed-plus c cells (some infinite) total at (inr (inl same)) = rw (same, at) (inr (inl refl))
Summed-plus c cells (some infinite) total at (inr (inr (same, numbers))) =
    rw (same, at) (inr (inl refl))
Summed-plus c cells (some (finite n)) total at (inl (same, some_nan)) =
    rw (same, at) (inl (refl, inr some_nan))
Summed-plus c cells (some (finite n)) total at (inr (inl same)) = rw (same, at) (inr (inl refl))
Summed-plus c cells (some (finite n)) total at (inr (inr (same, numbers))) =
    rw (same, at) (inr (inr (refl, (tt, numbers))))

known_cost-Summed : (cells : List BuiltCell) → Summed cells (known_cost cells)
unfolding known_cost Summed
known_cost-Summed [] = inr (inr (refl, tt))
known_cost-Summed (c ∷ cells) =
    Summed-plus c cells c.estimated_cost (known_cost cells) refl (known_cost-Summed cells)

not_over-WithinBudget :
    (policy : CampaignPolicy) (cells : List BuiltCell) (total budget : Price)
    → Summed cells total
    → is_over policy total budget ≡ false
    → WithinBudget policy.reserve_fraction cells budget
unfolding Summed
not_over-WithinBudget policy cells total nan h fits = tt
not_over-WithinBudget policy cells total infinite h fits = tt
not_over-WithinBudget policy cells total (finite b) (inl (same, some_nan)) fits = inl some_nan
not_over-WithinBudget policy cells total (finite b) (inr (inl same)) fits =
    absurd (clash (rw same at fits))
  where
    clash : true ≡ false → ⊥
    clash p = cc
not_over-WithinBudget policy cells total (finite b) (inr (inr (same, numbers))) fits =
    inr (numbers, within (rw same at fits))
  where
    within :
        ltb (b * 1000000) (estimated cells * (1000000 + policy.reserve_fraction)) ≡ false
        → estimated cells * (1000000 + policy.reserve_fraction) ≤ b * 1000000
    within p = ground arith

no_pass :
    (g : BudgetGate)
    → (g ≡ blocked_unknown_prices)
      ⊎ ((g ≡ blocked_budget_exceeded)
          ⊎ ((g ≡ blocked_no_hard_budget) ⊎ (g ≡ advisory_no_hard_budget)))
    → g ≡ pass
    → ⊥
no_pass g h p = ground arith

gate-Passes :
    (policy : CampaignPolicy) (cells : List BuiltCell)
    → budget_gate policy cells ≡ pass
    → Passes policy cells
unfolding budget_gate
gate-Passes policy cells h = elim (Bool-cases (eqb (unknown_cost_cells cells) 0)) [
  | inr unknown ↦ absurd (no_pass blocked_unknown_prices (inl refl) (rw unknown at h))
  | inl known ↦ elim (Option-cases policy.hard_budget) [
    | inr (budget, hard) ↦ elim (Bool-cases (is_over policy (known_cost cells) budget)) [
      | inl over ↦ absurd (
          no_pass blocked_budget_exceeded (inr (inl refl))
            (rw (known, hard, over, budget_gate) at h))
      | inr fits ↦ record {
        priced = All-IsPriced cells ((eqb_iff (unknown_cost_cells cells) 0).0 known);
        budget = budget;
        hard = hard;
        within =
            not_over-WithinBudget policy cells (known_cost cells) budget (known_cost-Summed cells)
              fits;
      }
    ]
    | inl no_budget ↦ elim (Bool-cases policy.require_hard_budget_before_execution) [
      | inl e ↦ absurd (
          no_pass blocked_no_hard_budget (inr (inr (inl refl)))
            (rw (known, no_budget, e, budget_gate) at h))
      | inr e ↦ absurd (
          no_pass advisory_no_hard_budget (inr (inr (inr refl)))
            (rw (known, no_budget, e, budget_gate) at h))
    ]
  ]
]

-- If a campaign is built and its gate passes, then every cell that is ready has an estimate, and there is
-- a hard budget. Where the budget is a number, either an estimate is NaN, or all estimates that there are
-- are numbers, and their sum, with the reserve on top, is within the budget.
pub build-Passes :
    (policy : CampaignPolicy) (prices : List PriceSchedule) (qualified : String → Bool)
    (sources : List ProspectiveCell) (cells : List BuiltCell)
    → build_campaign policy prices qualified sources ≡ built cells pass
    → Passes policy cells
unfolding build_campaign
build-Passes policy prices qualified sources cells h =
    elim (Option-cases (price_entries prices [])) [
      | inl bad ↦ absurd (not_built duplicate_price (rw (bad, build_campaign) at h))
      | inr (entries, fine) ↦ elim (Option-cases (check_currency policy.currency entries)) [
        | inr (e, bad) ↦ absurd (not_built e (rw (fine, bad, build_campaign) at h))
        | inl same ↦
            let h' : built (build_cells policy entries qualified sources)
                  (budget_gate policy (build_cells policy entries qualified sources))
                ≡ built cells pass =
              rw (fine, same, build_campaign) at h in
            let (c, g) = built-injective h' in
            gate-Passes policy cells (ap (budget_gate policy) (sym c) ∙ g)
      ]
    ]
  where
    not_built :
        (e : BuildError) {cells : List BuiltCell} {g : BudgetGate} → refused e ≡ built cells g → ⊥
    not_built e p = cc

    built-injective :
        {a b : List BuiltCell} {g k : BudgetGate} → built a g ≡ built b k → (a ≡ b) × (g ≡ k)
    built-injective p = (cc, cc)
