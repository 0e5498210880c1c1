-- ===== src/Store/History.antt =====
-- Histories of a store of src/pelicanbench/campaign_store.py: the calls of its operations, by any
-- workers, in any order. SQLite's BEGIN IMMEDIATE makes the calls of concurrent workers a sequence.
mod Frozen
pub mod Anew
use Frozen.{is_final, Writes-frozen, Writes-journal}
use pelican_bench.Base.{String, ◌≡◌, ◌≢◌, some, true, List, ◌++◌}
use pelican_bench.Campaign.{CampaignManifest, leased}
use pelican_bench.Store.Time.{Timestamp}
use pelican_bench.Store.Tables.{Store, CellRow, EventRow, find_cell}
use pelican_bench.Store.Journal.{Codec}
use pelican_bench.Store.Reclaim.{reclaim_expired_leases}
use pelican_bench.Store.Lease.{LeaseRequest, lease_campaign_cells}
use pelican_bench.Store.Holder.{
  HeartbeatRequest, heartbeat_campaign_lease, Completion, complete_campaign_lease,
}
use pelican_bench.Store.Requeue.{RequeueRequest, requeue_failed_cell}
use pelican_bench.Store.Reconcile.{reconcile_campaign_store}
use pelican_bench.Store.Sound.{IsSound}
use pelican_bench.Store.Sound.Writes.{Writes, Writes-IsSound, Writes-append}
use pelican_bench.Store.Sound.Audit.{reconcile-IsSound}
use pelican_bench.Store.Sound.Operations.{
  reclaim_expired_leases-Writes, lease_campaign_cells-Writes,
}
use pelican_bench.Store.Sound.Holders.{
  InGrains, heartbeat_campaign_lease-Writes, complete_campaign_lease-Writes,
  requeue_failed_cell-Writes,
}

module _ (d : Codec) (m : CampaignManifest) where
  -- One call, whether it returns or raises. Costs are whole grains, and no leased cell is requeued.
  pub data Call (s : Store) : Store → Type 0 where
    reclaim : (now : Timestamp) → Call s (reclaim_expired_leases d m now s).1
    lease : (q : LeaseRequest) → Call s (lease_campaign_cells d m q s).1
    heartbeat : (q : HeartbeatRequest) → Call s (heartbeat_campaign_lease d m q s).1
    complete :
        (q : Completion) → InGrains d m q.actual_cost → Call s (complete_campaign_lease d m q s).1
    requeue :
        (q : RequeueRequest)
        → ((r : CellRow) → find_cell q.cell_id s.cells ≡ some r → r.state ≢ leased)
        → Call s (requeue_failed_cell d m q s).1

  pub data History (s : Store) : Store → Type 0 where
    start : History s s
    more : {t u : Store} → History s t → Call t u → History s u

  -- A call on a sound store is a row of writes.
  pub Call-Writes : {s t : Store} → IsSound d m s → Call s t → Writes d m s t
  Call-Writes {s} h (reclaim now) = reclaim_expired_leases-Writes d m now s h
  Call-Writes {s} h (lease q) = lease_campaign_cells-Writes d m q s h
  Call-Writes {s} h (heartbeat q) = heartbeat_campaign_lease-Writes d m q s h
  Call-Writes {s} h (complete q grains) = complete_campaign_lease-Writes d m q s grains h
  Call-Writes {s} h (requeue q idle) = requeue_failed_cell-Writes d m q s idle h

  -- So is a history.
  pub History-Writes : {s t : Store} → IsSound d m s → History s t → Writes d m s t
  History-Writes h start = Writes.start
  History-Writes h (more before call) =
      let w = History-Writes h before in
      Writes-append d m w (Call-Writes (Writes-IsSound d m h w) call)

  -- After a history of a sound store, in which costs are whole grains and no leased cell is requeued,
  -- the audit finds the store valid: the manifest matches, the journal's sequence and hash chain are
  -- whole, its replay gives the state and the cost of every cell, and no lease metadata is stale.
  pub History-reconcile :
      {s t : Store} → IsSound d m s → History s t → (reconcile_campaign_store d m t).valid ≡ true
  History-reconcile {t = t} h calls =
      reconcile-IsSound d m t (Writes-IsSound d m h (History-Writes h calls))

  -- In a history of a sound store (costs are whole grains, no leased cell is requeued) a cell that has
  -- succeeded, is quarantined or is cancelled stays as it is in every column.
  pub final_cell_kept :
      (k : String) (r : CellRow) {s t : Store}
      → IsSound d m s
      → History s t
      → find_cell k s.cells ≡ some r
      → is_final r.state ≡ true
      → find_cell k t.cells ≡ some r
  final_cell_kept k r h calls found final =
      Writes-frozen d m k r final (History-Writes h calls) found

  -- The journal is append-only: in a history of a sound store (costs are whole grains, no leased cell
  -- is requeued) the events that the store has stay, in their order, under the newer ones.
  pub journal_grows :
      {s t : Store}
      → IsSound d m s
      → History s t
      → (newer : List EventRow) × (t.events ≡ newer ++ s.events)
  journal_grows h calls = Writes-journal d m (History-Writes h calls)
