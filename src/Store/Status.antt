-- ===== src/Store/Status.antt =====
-- `campaign_store_status` and `read_store_events` of src/pelicanbench/campaign_store.py.
use pelican_bench.Base.{
  ℕ, ◌+◌, Bool, false, not, Option, none, some, List, [], ◌∷◌, reverse, if◌then◌else◌, leb, eqb,
  ◌&&◌,
}
use pelican_bench.Base.Int.{ℤ, pos, ◌-ℤ◌, ltb_ℤ}
use pelican_bench.Base.Lists.{length}
use pelican_bench.Campaign.{
  CampaignManifest, CellState, same_state, blocked_qualification, blocked_price, ready, leased,
  succeeded, failed, quarantined, cancelled,
}
use pelican_bench.Store.Result.{Result, ok, ◌>>=◌, ◌>>◌}
use pelican_bench.Store.Time.{Timestamp, parse_utc}
use pelican_bench.Store.Money.{round8, round8_ℤ}
use pelican_bench.Store.Tables.{Store, CellRow, EventRow}
use pelican_bench.Store.Journal.{Codec, verify_manifest}
use pelican_bench.Store.Queries.{parse_column, spent_cost, reserved_cost, one_if}
use pelican_bench.Store.Reclaim.{may_expire}

-- `counts.get(state, 0)`
unfoldable pub count_state : CellState → List CellRow → ℕ
count_state state [] = 0
count_state state (r ∷ rows) = one_if (same_state r.state state) + count_state state rows

-- the leased cells whose lease has expired
unfoldable pub count_expired : ℕ → List CellRow → Result ℕ
count_expired now_value [] = ok 0
count_expired now_value (r ∷ rows) =
    let rest = count_expired now_value rows in
    if may_expire r
    then (do
      expiry ← parse_column r.lease_expires_at
      n ← rest
      ok (one_if (leb expiry now_value) + n))
    else rest

pub record StoreStatus : Type 0 where
  pub count : CellState → ℕ
  pub cell_count : ℕ
  pub event_count : ℕ
  pub spent_cost : ℕ
  pub reserved_cost : ℤ
  pub hard_budget : Option ℤ
  pub remaining_budget : Option ℤ
  pub active_leases : ℕ
  pub expired_leases : ℕ
  pub terminal_cells : ℕ
  pub complete : Bool
  pub budget_exceeded : Bool

abbrev pub terminal_count : List CellRow → ℕ
terminal_count rows =
    count_state succeeded rows
    + count_state failed rows
    + count_state quarantined rows
    + count_state cancelled rows

abbrev pub exceeds : ℕ → Option ℤ → Bool
exceeds spent none = false
exceeds spent (some budget) = ltb_ℤ budget (pos spent)

abbrev pub is_complete : CampaignManifest → List CellRow → Bool
is_complete m rows =
    eqb (terminal_count rows) (length rows)
    && eqb (count_state blocked_qualification rows + count_state blocked_price rows) 0
    && eqb (count_state ready rows) 0
    && eqb (count_state leased rows) 0
    && not (exceeds (spent_cost rows) m.hard_budget)

abbrev pub remaining : Option ℤ → ℕ → ℤ → Option ℤ
remaining none spent reserved = none
remaining (some budget) spent reserved = some (round8_ℤ (budget -ℤ pos spent -ℤ reserved))

-- `campaign_store_status`
unfoldable pub campaign_store_status :
    Codec → CampaignManifest → Timestamp → Store → Result StoreStatus
campaign_store_status d m now s = do
  now_value ← parse_utc now
  verify_manifest d m s
  expired ← count_expired now_value s.cells
  ok (record {
    count = λ state. count_state state s.cells;
    cell_count = length s.cells;
    event_count = length s.events;
    spent_cost = round8 (spent_cost s.cells);
    reserved_cost = round8_ℤ (reserved_cost s.cells);
    hard_budget = m.hard_budget;
    remaining_budget = remaining m.hard_budget (spent_cost s.cells) (reserved_cost s.cells);
    active_leases = count_state leased s.cells;
    expired_leases = expired;
    terminal_cells = terminal_count s.cells;
    complete = is_complete m s.cells;
    budget_exceeded = exceeds (spent_cost s.cells) m.hard_budget;
  })

-- `read_store_events`: the rows by ascending sequence
unfoldable pub read_store_events : Store → List EventRow
read_store_events s = reverse s.events
