-- ===== src/Store/Exclusive.antt =====
-- Who holds a cell after a call of `lease_campaign_cells` (src/pelicanbench/campaign_store.py): the
-- lemmas that the children share.
pub mod Held
pub mod Running
use pelican_bench.Base.{
  ℕ, suc, ◌+◌, ◌≤◌, ◌<◌, String, ◌≡◌, ◌≢◌, refl, sym, ap, subst, ◌∙◌, Bool, true, false, Option,
  some, List, [], ◌∷◌, ◌++◌, arith, ltb, leb, ◌==◌, ◌||◌, eq_iff, Bool-cases, inl, inr,
}
use pelican_bench.Base.Int.{ℤ}
use pelican_bench.Base.Lists.{All, length}
use pelican_bench.Campaign.{CampaignManifest, leased, ready}
use pelican_bench.Store.Result.{
  Result, Error, ok, err, >>=-eq-ok, ok-injective, ok-pair, Result-cases,
}
use pelican_bench.Store.Time.{Timestamp, parse_utc}
use pelican_bench.Store.Tables.{Store, CellRow, EventRow, StoreLease, find_cell, update_cell}
use pelican_bench.Store.Journal.{Codec, insert_event, verify_manifest}
use pelican_bench.Store.Queries.{transaction_ok, transaction_keeps, parse_column, query, spent_cost}
use pelican_bench.Store.Reclaim.{free_row, expiry_draft, may_expire, reclaim_expired}
use pelican_bench.Store.Lease.{
  LeaseRequest, Round, lease_draft, leased_row, lease_of, is_candidate, first_round, lease_rows,
  lease_body, check_request, lease_campaign_cells,
}
use pelican_bench.Store.Cells.{find-update_self, find-update_ne, query-IsSnapshot, query-All}
use pelican_bench.Store.Loops.{freed, Ended, reclaim_rows_induction}
use pelican_bench.Store.Loops.Leasing.{granted, Grants, leased_row-KeepsKey, lease_rows_induction}
use pelican_bench.Store.Sound.{IsSound, insert_event_ok}
use pelican_bench.Store.Sound.Writes.{Writes-IsSound}
use pelican_bench.Store.Sound.Operations.{
  is_candidate-ready, may_expire-leased, reclaim_expired-Writes,
}

one_row : {a b : CellRow} {x : Option CellRow} → x ≡ some a → x ≡ some b → a ≡ b
one_row p q = cc

pub not_both : (r : CellRow) → r.state ≡ ready → r.state ≡ leased → ⊥
not_both r p q = cc

-- Two rows in different states have different keys.
pub keys_differ :
    (k : String) (r row : CellRow) (cells : List CellRow)
    → find_cell k cells ≡ some r
    → find_cell row.cell_id cells ≡ some row
    → (r ≡ row → ⊥)
    → (k == row.cell_id) ≡ false
keys_differ k r row cells found there differ = elim (Bool-cases (k == row.cell_id)) [
  | inl e ↦ absurd (differ (one_row found (rw ((eq_iff k row.cell_id).0 e) there)))
  | inr e ↦ e
]

-- the UPDATE of a grant
abbrev pub granted_row : LeaseRequest → String → Timestamp → CellRow → CellRow → CellRow
granted_row q token expires_at row = leased_row q token (row.attempt_count + 1) expires_at
