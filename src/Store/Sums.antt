-- ===== src/Store/Sums.antt =====
-- How one UPDATE of the table `cells` moves the sums that src/pelicanbench/campaign_store.py takes
-- over it: the money spent, the money reserved, and the active leases of a model.
use pelican_bench.Base.{
  ◌+◌, String, ◌≡◌, refl, true, false, none, some, List, [], ◌∷◌, arith, ◌==◌, eq_iff, ◌&&◌,
  Bool-cases, inl, inr,
}
use pelican_bench.Base.Int.{◌+ℤ◌, +ℤ_ends, +ℤ_under}
use pelican_bench.Store.Tables.{CellRow, is_leased, find_cell, update_cell}
use pelican_bench.Store.Queries.{spent_cost, reserved_cost, reserve_of, active_leases, one_if}
use pelican_bench.Store.Cells.{Unique, update_cell_missing}

some_same : {a b : CellRow} → some a ≡ some b → a ≡ b
some_same p = cc

-- What is found under the key of the first row of a table with a primary key.
pub found_first :
    (k : String) (r x : CellRow) (rows : List CellRow)
    → Unique (x ∷ rows)
    → find_cell k (x ∷ rows) ≡ some r
    → (x.cell_id == k) ≡ true
    → (x ≡ r) × (find_cell k rows ≡ none)
unfolding find_cell
found_first k r x rows u h e = (some_same (rw e at h), rw (← (eq_iff x.cell_id k).0 e) u.0)

pub found_later :
    (k : String) (r x : CellRow) (rows : List CellRow)
    → find_cell k (x ∷ rows) ≡ some r
    → (x.cell_id == k) ≡ false
    → find_cell k rows ≡ some r
unfolding find_cell
found_later k r x rows h e = rw e at h

module _ (k : String) (f : CellRow → CellRow) where
  pub spent-update :
      (rows : List CellRow)
      → ((r : CellRow) → (f r).actual_cost ≡ r.actual_cost)
      → spent_cost (update_cell k f rows) ≡ spent_cost rows
  unfolding spent_cost update_cell
  spent-update [] same = refl
  spent-update (x ∷ rows) same = ground (arith, spent-update rows same, same x)

module _ (k : String) (f : CellRow → CellRow) (r : CellRow) where
  pub reserved-update :
      (rows : List CellRow)
      → Unique rows
      → find_cell k rows ≡ some r
      → reserved_cost (update_cell k f rows) +ℤ reserve_of r
        ≡ reserved_cost rows +ℤ reserve_of (f r)
  unfolding reserved_cost update_cell find_cell
  reserved-update [] u h = cc
  reserved-update (x ∷ rows) u h = elim (Bool-cases (x.cell_id == k)) [
    | inl e ↦
        let (same, gone) = found_first k r x rows u h e in
        rw (e, update_cell_missing k f rows gone, same)
          (+ℤ_ends (reserve_of (f r)) (reserved_cost rows) (reserve_of r))
    | inr e ↦ rw e (
        +ℤ_under (reserve_of x) (reserved_cost (update_cell k f rows)) (reserved_cost rows)
          (reserve_of r) (reserve_of (f r)) (reserved-update rows u.1 (found_later k r x rows h e)))
  ]

  pub active-update :
      (model : String) (rows : List CellRow)
      → Unique rows
      → find_cell k rows ≡ some r
      → active_leases model (update_cell k f rows) + one_if (is_leased r && (r.model_id == model))
        ≡ active_leases model rows + one_if (is_leased (f r) && ((f r).model_id == model))
  unfolding active_leases update_cell find_cell
  active-update model [] u h = cc
  active-update model (x ∷ rows) u h = elim (Bool-cases (x.cell_id == k)) [
    | inl e ↦
        let (same, gone) = found_first k r x rows u h e in
        rw (e, update_cell_missing k f rows gone, same) (omega arith)
    | inr e ↦ rw e (omega (arith, active-update model rows u.1 (found_later k r x rows h e)))
  ]
