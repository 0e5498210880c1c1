-- ===== src/Worker/Summary.antt =====
-- What a batch of src/pelicanbench/campaign_worker.py that returned has done.
use pelican_bench.Base.{
  String, ◌+◌, ◌≤◌, ◌≡◌, refl, ap, subst, true, List, [], ◌∷◌, arith, inl, inr, some, Option-cases,
}
use pelican_bench.Base.Text.{◌^^◌}
use pelican_bench.Base.Lists.{All, length}
use pelican_bench.Base.Dict.{get, get-put_self}
use pelican_bench.Campaign.{CampaignManifest, CellState, succeeded, quarantined, failed, same_state}
use pelican_bench.Store.Result.{Result, ok, err, Error, ok-injective, Result-cases}
use pelican_bench.Store.Queries.{one_if}
use pelican_bench.Store.Tables.{EventRow, StoreLease}
use pelican_bench.Store.Journal.{Codec}
use pelican_bench.Store.Lease.{lease_campaign_cells}
use pelican_bench.Store.Sound.{IsSound}
use pelican_bench.Store.Sound.Writes.{Writes-IsSound}
use pelican_bench.Store.Exclusive.Held.{lease-AllHeld}
use pelican_bench.Store.History.{start, more, lease, History-Writes}
use pelican_bench.Worker.Outcome.{Scorecard}
use pelican_bench.Worker.Records.{
  CampaignCellExecution, CampaignWorkerResult, WorkerCodec, write_immutable, same_batch, batch_path,
}
use pelican_bench.Worker.Settlement.{
  Adapter, Meanwhile, BatchRequest, World, check_batch, batch_lease,
}
use pelican_bench.Worker.Batch.{
  batch_payload, execute_leases, count_records, finish_batch, execute_campaign_batch,
}
use pelican_bench.Worker.Leases.{lease_campaign_cells-IsOwn}
use pelican_bench.Worker.Safe.{Orderly}
use pelican_bench.Worker.Paired.{Paired, execute_leases-Paired}
use pelican_bench.Worker.Accounts.{Accounted, is_outcome, execute_leases-Accounted}

counted_once :
    (c : CellState)
    → is_outcome c ≡ true
    → one_if (same_state c succeeded)
        + one_if (same_state c quarantined)
        + one_if (same_state c failed)
      ≡ 1
counted_once c h = ground arith

counts-total :
    (events : List EventRow) (xs : List CampaignCellExecution)
    → All (Accounted events) xs
    → count_records succeeded xs + count_records quarantined xs + count_records failed xs
      ≡ length xs
unfolding count_records
counts-total events [] h = refl
counts-total events (x ∷ xs) h =
    omega (arith, counted_once x.terminal_state h.0.outcome, counts-total events xs h.1)

-- Every record has its event, there is one for each lease, there are no more than the limit, the summary
-- counts each once, and its file holds it.
pub record IsSummary (d : Codec) (w : WorkerCodec) (m : CampaignManifest) (a : Adapter)
    (q : BatchRequest) (before after : World) (b : CampaignWorkerResult) : Type 0 where
  pub leases : List StoreLease
  pub leased : (lease_campaign_cells d m (batch_lease q a) before.store).0 ≡ ok leases
  pub paired : Paired leases b.records
  pub counted : b.leased_cells ≡ length b.records
  pub accounted : All (Accounted after.store.events) b.records
  pub within : b.leased_cells ≤ q.limit
  pub total : b.succeeded + b.quarantined + b.failed ≡ b.leased_cells
  pub kept : get (batch_path w b) after.batches ≡ some b

-- A batch file that is written holds its batch.
written_batch :
    (path : String) (b : CampaignWorkerResult) (files files' : List (String × CampaignWorkerResult))
    → write_immutable same_batch path b files ≡ ok files'
    → get path files' ≡ some b
unfolding write_immutable same_batch
written_batch path b files files' h = elim (Option-cases (get path files)) [
  | inl missing ↦
      subst (λ (x : List (String × CampaignWorkerResult)). get path x ≡ some b)
        (ok-injective (rw (missing, write_immutable) at h)) (get-put_self path b files)
  | inr (old, there) ↦ absurd (collides _ (rw (there, write_immutable) at h))
]
  where
    collides :
        (x : Error)
        → ◌≡◌ {A = Result (List (String × CampaignWorkerResult))} (err x) (ok files')
        → ⊥
    collides x p = cc

module _ (d : Codec) (w : WorkerCodec) (m : CampaignManifest) (error_text : Error → String)
    (hash : Scorecard → String) (a : Adapter) (q : BatchRequest) (tasks : List (String × Unit {0}))
    (meanwhile : StoreLease → Meanwhile) where
  no_summary :
      (x : Error) (world : World) {b : CampaignWorkerResult} {world' : World}
      → ◌≡◌ {A = Result CampaignWorkerResult × World} (err x, world) (ok b, world')
      → ⊥
  no_summary x world p = cc

  abbrev result_of : List CampaignCellExecution → CampaignWorkerResult
  result_of xs = record {
    payload = batch_payload m a q.worker_id xs;
    batch_hash = "sha256:" ^^ w.of_batch (batch_payload m a q.worker_id xs);
  }

  finish_batch-IsSummary :
      (leases : List StoreLease) (xs : List CampaignCellExecution) (before world world' : World)
      (b : CampaignWorkerResult)
      → (lease_campaign_cells d m (batch_lease q a) before.store).0 ≡ ok leases
      → All (Accounted world.store.events) xs
      → Paired leases xs
      → length xs ≤ q.limit
      → finish_batch d w m error_text hash a q tasks meanwhile xs world ≡ (ok b, world')
      → IsSummary d w m a q before world' b
  unfolding finish_batch
  finish_batch-IsSummary leases xs before world world' b leased h same within done =
      let b₀ = result_of xs in
      elim (Result-cases (write_immutable same_batch (batch_path w b₀) b₀ world.batches)) [
        | inr (e, raised) ↦ absurd (no_summary e _ (rw (raised, finish_batch) at done))
        | inl (files, wrote) ↦
            let end = rw (wrote, finish_batch) at done in
            subst (λ (o : World). IsSummary d w m a q before o b)
              (ap (λ (r : Result CampaignWorkerResult × World). r.1) end)
              (subst
                (λ (o : CampaignWorkerResult).
                  IsSummary d w m a q before (record world { batches = files }) o)
                (ok-injective (ap (λ (r : Result CampaignWorkerResult × World). r.0) end))
                (record {
                  leases = leases;
                  leased = leased;
                  paired = same;
                  counted = refl;
                  accounted = h;
                  within = within;
                  total = counts-total world.store.events xs h;
                  kept = written_batch (batch_path w b₀) b₀ world.batches files wrote;
                }))
      ]

  -- A batch on a sound store that returned has one record for each lease that its call of the store
  -- returned, in the same order, of the lease's cell, token, attempt, task, replicate and seed, and at most
  -- `limit`. Each record says succeeded, quarantined or failed, and the journal has an event of
  -- the same campaign, cell, worker, lease token, state, reason and cost, and of the same artifact where
  -- the state is not failed. The three counts add up to the number of records, and the batch is in its
  -- file. What the other workers do in between is calls of the store's operations, with costs in whole
  -- grains and no requeue of a leased cell.
  pub execute_campaign_batch-IsSummary :
      (world world' : World) (b : CampaignWorkerResult)
      → ((l : StoreLease) → Orderly d m (meanwhile l))
      → IsSound d m world.store
      → execute_campaign_batch d w m error_text hash a q tasks meanwhile world ≡ (ok b, world')
      → IsSummary d w m a q world world' b
  unfolding execute_campaign_batch
  execute_campaign_batch-IsSummary world world' b calm sound done =
      let r = batch_lease q a in
      let asked = lease_campaign_cells d m r world.store in
      elim (Result-cases (check_batch q)) [
        | inr (e, raised) ↦ absurd (no_summary e _ (rw (raised, execute_campaign_batch) at done))
        | inl (u, checked) ↦ elim (Result-cases asked.0) [
          | inr (e, raised) ↦
              absurd (no_summary e _ (rw (checked, raised, execute_campaign_batch) at done))
          | inl (leases, answered) ↦
              let world₀ = record world { store = asked.1 } in
              let ran = execute_leases d w m error_text hash a q tasks meanwhile leases world₀ in
              elim (Result-cases ran.0) [
                | inr (e, raised) ↦ absurd (
                    no_summary e _ (rw (checked, answered, raised, execute_campaign_batch) at done))
                | inl (xs, finished) ↦
                    let call : asked ≡ (ok leases, asked.1) = λ i. (answered i, asked.1) in
                    let sound₀ =
                      Writes-IsSound d m sound (History-Writes d m sound (more start (lease r))) in
                    let (accounted, same) =
                      execute_leases-Accounted d w m error_text hash a q tasks meanwhile leases
                        world₀ ran.1 xs calm sound₀
                        (lease_campaign_cells-IsOwn d m r world.store asked.1 leases call)
                        (λ i. (finished i, ran.1)) in
                    let held = lease-AllHeld d m r world.store asked.1 leases sound call in
                    finish_batch-IsSummary leases xs world ran.1 world' b answered accounted
                      (execute_leases-Paired d w m error_text hash a q tasks meanwhile leases world₀
                        ran.1 xs (λ i. (finished i, ran.1)))
                      (rw same held.within)
                      (rw (checked, answered, finished, execute_campaign_batch) at done)
              ]
        ]
      ]
