-- ===== src/Store/Budget/Rounds.antt =====
-- The leasing loop of `lease_campaign_cells` (src/pelicanbench/campaign_store.py): what its variables
-- stand for in every round.
use pelican_bench.Base.{
  ℕ, suc, ◌+◌, ◌≤◌, String, ◌≡◌, ◌≢◌, refl, sym, ap, ◌∙◌, true, false, some, List, [], ◌∷◌, ◌++◌,
  arith, ◌==◌, eq_iff, ◌⊎◌, ◌&&◌, Bool-cases, inl, inr, if◌then◌else◌,
}
use pelican_bench.Base.Int.{ℤ, pos, ◌+ℤ◌, ◌≤ℤ◌, +ℤ_assoc, +ℤ_zero, ≤ℤ_of_not_lt}
use pelican_bench.Campaign.{CampaignManifest, ready}
use pelican_bench.Store.Time.{Timestamp}
use pelican_bench.Store.Tables.{
  Store, CellRow, EventRow, StoreLease, is_leased, find_cell, update_cell,
}
use pelican_bench.Store.Journal.{Codec}
use pelican_bench.Store.Queries.{spent_cost, reserved_cost, reserve_of, active_leases}
use pelican_bench.Store.Lease.{LeaseRequest, Round, lease_draft, leased_row}
use pelican_bench.Store.Cells.{Unique, update-Unique}
use pelican_bench.Store.Sums.{spent-update, reserved-update, active-update}
use pelican_bench.Store.Loops.Leasing.{granted, Grants, leased_row-KeepsKey}
use pelican_bench.Store.Sound.{insert_event_ok}
use pelican_bench.Store.Budget.Terms.{WithinBudget, IsCapped}

leased_row-cost :
    (q : LeaseRequest) (token : String) (n : ℕ) (t : Timestamp) (r : CellRow)
    → (leased_row q token n t r).actual_cost ≡ r.actual_cost
leased_row-cost q token n t r = ground arith

module _ (d : Codec) (m : CampaignManifest) (q : LeaseRequest) (budget : ℤ) (start : Store)
    (expires_at : Timestamp) where
  -- What the variables of the loop stand for, and what they keep to.
  pub record Accounts (l : Round) : Type 0 where
    pub unique : Unique l.store.cells
    pub spent : spent_cost l.store.cells ≡ spent_cost start.cells
    pub reserved : l.reserved ≡ reserved_cost l.store.cells
    pub active : (model : String) → l.active model ≡ active_leases model l.store.cells
    pub granted_within : l.leases ≢ [] → pos (spent_cost start.cells) +ℤ l.reserved ≤ℤ budget
    pub stays_within :
        WithinBudget budget start.cells → pos (spent_cost start.cells) +ℤ l.reserved ≤ℤ budget
    pub capped :
        IsCapped m.max_parallel_per_model start.cells
        → (model : String) → l.active model ≤ m.max_parallel_per_model

  reserved-grant :
      (cells : List CellRow) (row : CellRow) (estimate : ℤ) (token : String) (reserved : ℤ)
      → Unique cells
      → find_cell row.cell_id cells ≡ some row
      → row.state ≡ ready
      → row.estimated_cost ≡ some estimate
      → reserved ≡ reserved_cost cells
      → reserved +ℤ estimate
        ≡ reserved_cost
            (update_cell row.cell_id (leased_row q token (row.attempt_count + 1) expires_at) cells)
  reserved-grant cells row estimate token reserved u found open_cell priced same =
      let f = leased_row q token (row.attempt_count + 1) expires_at in
      let before : reserve_of row ≡ pos 0 = rw open_cell refl in
      let after : reserve_of (f row) ≡ estimate = rw (open_cell, priced) refl in
      let moved = reserved-update row.cell_id f row cells u found in
      sym (rw (after, before, +ℤ_zero, ← same) at moved)

  active-grant :
      (cells : List CellRow) (row : CellRow) (token : String) (active : String → ℕ)
      → Unique cells
      → find_cell row.cell_id cells ≡ some row
      → row.state ≡ ready
      → ((model : String) → active model ≡ active_leases model cells)
      → (model : String)
      → (if row.model_id == model then suc (active model) else active model)
        ≡ active_leases model
            (update_cell row.cell_id (leased_row q token (row.attempt_count + 1) expires_at) cells)
  active-grant cells row token active u found open_cell same model =
      let f = leased_row q token (row.attempt_count + 1) expires_at in
      let before : (is_leased row && (row.model_id == model)) ≡ false = rw open_cell refl in
      let after : (is_leased (f row) && ((f row).model_id == model)) ≡ (row.model_id == model) =
        rw open_cell refl in
      let moved = rw (before, after) at (active-update row.cell_id f row model cells u found) in
      elim (Bool-cases (row.model_id == model)) [
        | inl e ↦ rw e (omega (arith, same model, rw e at moved))
        | inr e ↦ rw e (omega (arith, same model, rw e at moved))
      ]

  nonempty : (ls : List StoreLease) (x : StoreLease) → ls ++ x ∷ [] ≢ []
  nonempty [] x h = cc
  nonempty (y ∷ ls) x h = cc

  pub granted-Accounts :
      (row : CellRow) (l : Round) (estimate : ℤ) (token : String) (calls : ℕ) (event : EventRow)
      (s : Store)
      → Accounts l
      → find_cell row.cell_id l.store.cells ≡ some row
      → row.state ≡ ready
      → Grants d m q budget (spent_cost start.cells) expires_at row l estimate token calls event s
      → Accounts (granted q expires_at row estimate token calls s l)
  granted-Accounts row l estimate token calls event s a found open_cell g =
      let f = leased_row q token (row.attempt_count + 1) expires_at in
      let same : s.cells ≡ l.store.cells =
        ap (λ (x : Store). x.cells)
          (insert_event_ok d m (lease_draft q token estimate row) l.store g.done).after in
      let fits : pos (spent_cost start.cells) +ℤ (l.reserved +ℤ estimate) ≤ℤ budget =
        rw (← +ℤ_assoc (pos (spent_cost start.cells)) l.reserved estimate)
          (≤ℤ_of_not_lt (pos (spent_cost start.cells) +ℤ l.reserved +ℤ estimate) budget g.fits) in
      record {
        unique = rw same (
            update-Unique row.cell_id f
              (leased_row-KeepsKey q token (row.attempt_count + 1) expires_at) l.store.cells
              a.unique);
        spent = rw same (
            spent-update row.cell_id f l.store.cells
              (leased_row-cost q token (row.attempt_count + 1) expires_at)
            ∙ a.spent);
        reserved = rw same (
            reserved-grant l.store.cells row estimate token l.reserved a.unique found open_cell
              g.priced a.reserved);
        active = λ model.
            rw same (
              active-grant l.store.cells row token l.active a.unique found open_cell a.active
                model);
        granted_within = λ _. fits;
        stays_within = λ _. fits;
        capped = λ h model. grown model (Bool-cases (row.model_id == model)) h;
      }
    where
      grown :
          (model : String)
          → ((row.model_id == model) ≡ true) ⊎ ((row.model_id == model) ≡ false)
          → IsCapped m.max_parallel_per_model start.cells
          → (if row.model_id == model then suc (l.active model) else l.active model)
            ≤ m.max_parallel_per_model
      grown model (inl e) h =
          rw e (ground (arith, g.room, ap l.active ((eq_iff row.model_id model).0 e)))
      grown model (inr e) h = rw e (a.capped h model)
