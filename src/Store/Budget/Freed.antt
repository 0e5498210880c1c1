-- ===== src/Store/Budget/Freed.antt =====
-- Reclaiming expired leases (`_reclaim_expired_in_transaction` of
-- src/pelicanbench/campaign_store.py) spends nothing, and frees reserves and leases.
use pelican_bench.Base.{◌≤◌, String, ◌≡◌, refl, ap, ◌∙◌, false, some, List, arith}
use pelican_bench.Base.Int.{ℤ, pos, ◌+ℤ◌, ◌≤ℤ◌, ltb_ℤ, int_laws, pos_part, neg_part}
use pelican_bench.Campaign.{CampaignManifest, leased}
use pelican_bench.Store.Result.{ok, >>=-eq-ok}
use pelican_bench.Store.Time.{Timestamp, parse_utc}
use pelican_bench.Store.Money.{or_zero}
use pelican_bench.Store.Tables.{Store, CellRow, EventRow, find_cell, update_cell}
use pelican_bench.Store.Journal.{Codec, insert_event}
use pelican_bench.Store.Queries.{query, spent_cost, reserved_cost, reserve_of, active_leases}
use pelican_bench.Store.Reclaim.{free_row, expiry_draft, may_expire, reclaim_expired}
use pelican_bench.Store.Cells.{Unique, update-Unique, query-IsSnapshot, query-All}
use pelican_bench.Store.Sums.{spent-update, reserved-update, active-update}
use pelican_bench.Store.Loops.{freed, reclaim_rows_induction}
use pelican_bench.Store.Sound.{insert_event_ok}
use pelican_bench.Store.Sound.Operations.{may_expire-leased}

-- `rows` has spent as much as `old`, and has reserved and leased no more.
pub record Lower (old rows : List CellRow) : Type 0 where
  pub unique : Unique rows
  pub spent : spent_cost rows ≡ spent_cost old
  pub reserved : reserved_cost rows ≤ℤ reserved_cost old
  pub active : (model : String) → active_leases model rows ≤ active_leases model old

-- a sum that loses a summand that is not negative
drops : (a b x : ℤ) → a +ℤ x ≡ b +ℤ pos 0 → ltb_ℤ x (pos 0) ≡ false → a ≤ℤ b
drops a b x h nonneg = let p = ap pos_part h in let n = ap neg_part h in grind int_laws

module _ (d : Codec) (m : CampaignManifest) (now : Timestamp) (old : List CellRow) where
  freed-Lower :
      (row : CellRow) (s s₁ : Store) (event : EventRow)
      → Lower old s.cells
      → find_cell row.cell_id s.cells ≡ some row
      → row.state ≡ leased
      → insert_event d m (expiry_draft now row) s ≡ ok (event, s₁)
      → Lower old (freed now row s₁).cells
  freed-Lower row s s₁ event h found live done =
      let i = insert_event_ok d m (expiry_draft now row) s done in
      let f = free_row now in
      let was : reserve_of row ≡ or_zero row.estimated_cost = rw live refl in
      let moved : reserved_cost (update_cell row.cell_id f s.cells) +ℤ or_zero row.estimated_cost
          ≡ reserved_cost s.cells +ℤ pos 0 =
        rw was at (reserved-update row.cell_id f row s.cells h.unique found) in
      let down =
        drops (reserved_cost (update_cell row.cell_id f s.cells)) (reserved_cost s.cells)
          (or_zero row.estimated_cost) moved i.estimate in
      rw i.after (record {
        unique = update-Unique row.cell_id f (λ r. refl) s.cells h.unique;
        spent = spent-update row.cell_id f s.cells (λ r. refl) ∙ h.spent;
        reserved = omega (arith, down, h.reserved);
        active = λ model.
            omega
              (arith, active-update row.cell_id f row model s.cells h.unique found, h.active model);
      })

  pub reclaim_expired-Lower :
      (s : Store) {events : List EventRow} {s' : Store}
      → s.cells ≡ old
      → Unique s.cells
      → reclaim_expired d m now s ≡ ok (events, s')
      → Lower old s'.cells
  unfolding reclaim_expired
  reclaim_expired-Lower s same u done =
      let (t, _, rest) = >>=-eq-ok (parse_utc now) _ done in
      reclaim_rows_induction d m now t (λ (x : Store). Lower old x.cells)
        (λ row x x₁ event h found live _ done. freed-Lower row x x₁ event h found live done)
        (query may_expire s.cells) s
        (record {
          unique = u;
          spent = ap spent_cost same;
          reserved = rw same (omega arith);
          active = λ model. rw same (omega arith);
        })
        (query-IsSnapshot may_expire s.cells u)
        (query-All (λ (r : CellRow). r.state ≡ leased) may_expire s.cells may_expire-leased) rest
