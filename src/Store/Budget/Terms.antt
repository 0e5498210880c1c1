-- ===== src/Store/Budget/Terms.antt =====
-- The budget and the cap that leasing keeps to (src/pelicanbench/campaign_store.py).
use pelican_bench.Base.{ℕ, ◌≤◌, String, List}
use pelican_bench.Base.Int.{ℤ, pos, ◌+ℤ◌, ◌≤ℤ◌}
use pelican_bench.Store.Tables.{CellRow}
use pelican_bench.Store.Queries.{spent_cost, reserved_cost, active_leases}

-- what is spent and reserved fits the budget
abbrev pub WithinBudget : ℤ → List CellRow → Type 0
WithinBudget budget rows = pos (spent_cost rows) +ℤ reserved_cost rows ≤ℤ budget

-- no model has more active leases than the cap
abbrev pub IsCapped : ℕ → List CellRow → Type 0
IsCapped cap rows = (model : String) → active_leases model rows ≤ cap
