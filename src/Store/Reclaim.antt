-- ===== src/Store/Reclaim.antt =====
-- `_reclaim_expired_in_transaction` and `reclaim_expired_leases` of
-- src/pelicanbench/campaign_store.py. `now` is the caller's timestamp or the clock's.
use pelican_bench.Base.{
  ℕ, Bool, not, none, some, List, [], ◌∷◌, ◌++◌, if◌then◌else◌, ltb, ◌&&◌, is_none,
}
use pelican_bench.Base.Int.{pos}
use pelican_bench.Campaign.{CampaignManifest, leased, ready}
use pelican_bench.Store.Result.{Result, ok, ◌>>=◌, ◌>>◌}
use pelican_bench.Store.Time.{Timestamp, parse_utc}
use pelican_bench.Store.Money.{or_zero}
use pelican_bench.Store.Tables.{Store, CellRow, EventRow, is_leased, update_cell}
use pelican_bench.Store.Journal.{Codec, EventDraft, insert_event, verify_manifest}
use pelican_bench.Store.Queries.{transaction, parse_column, query}

-- the UPDATE of `_reclaim_expired_in_transaction`
abbrev pub free_row : Timestamp → CellRow → CellRow
free_row now r = record r {
  state = ready;
  lease_owner = none;
  lease_token = none;
  leased_at = none;
  lease_expires_at = none;
  reason = some "lease-expired";
  updated_at = now;
}

abbrev pub expiry_draft : Timestamp → CellRow → EventDraft
expiry_draft now row = record {
  cell_id = row.cell_id;
  previous_state = leased;
  new_state = ready;
  occurred_at = now;
  worker_id = row.lease_owner;
  lease_token = row.lease_token;
  attempt = row.attempt_count;
  reason = "lease-expired";
  estimated_cost = or_zero row.estimated_cost;
  actual_cost = pos 0;
  artifact_id = none;
}

-- state = 'leased' AND lease_expires_at IS NOT NULL
abbrev pub may_expire : CellRow → Bool
may_expire r = is_leased r && not (is_none r.lease_expires_at)

module _ (d : Codec) (m : CampaignManifest) (now : Timestamp) where
  -- one round of the loop
  unfoldable pub reclaim_row : ℕ → CellRow → Store → Result (List EventRow × Store)
  reclaim_row now_value row s = do
    expiry ← parse_column row.lease_expires_at
    if ltb now_value expiry then ok ([], s) else do
      (event, s') ← insert_event d m (expiry_draft now row) s
      ok (event ∷ [], record s' { cells = update_cell row.cell_id (free_row now) s'.cells })

  unfoldable pub reclaim_rows : ℕ → List CellRow → Store → Result (List EventRow × Store)
  reclaim_rows now_value [] s = ok ([], s)
  reclaim_rows now_value (row ∷ rows) s = do
    (event, s') ← reclaim_row now_value row s
    (events, s'') ← reclaim_rows now_value rows s'
    ok (event ++ events, s'')

  -- `_reclaim_expired_in_transaction`
  unfoldable pub reclaim_expired : Store → Result (List EventRow × Store)
  reclaim_expired s = do
    now_value ← parse_utc now
    reclaim_rows now_value (query may_expire s.cells) s

  -- the transaction of `reclaim_expired_leases`
  unfoldable pub reclaim_body : Store → Result (List EventRow × Store)
  reclaim_body s = do verify_manifest d m s; reclaim_expired s

  unfoldable pub reclaim_expired_leases : Store → Result (List EventRow) × Store
  reclaim_expired_leases = transaction reclaim_body
