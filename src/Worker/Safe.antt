-- ===== src/Worker/Safe.antt =====
-- The calls that a batch of src/pelicanbench/campaign_worker.py makes of the store.
use pelican_bench.Base.{
  ℕ, String, ◌≡◌, refl, Bool, true, false, List, [], ◌∷◌, arith, inl, inr, Option-cases,
}
use pelican_bench.Base.Lists.{All}
use pelican_bench.Base.Dict.{get}
use pelican_bench.Campaign.{CampaignManifest}
use pelican_bench.Store.Result.{Error, Result-cases}
use pelican_bench.Store.Money.{finite}
use pelican_bench.Store.Tables.{Store, StoreLease}
use pelican_bench.Store.Journal.{Codec}
use pelican_bench.Store.Holder.{heartbeat_campaign_lease, complete_campaign_lease}
use pelican_bench.Store.Lease.{lease_campaign_cells}
use pelican_bench.Store.Reconcile.{reconcile_campaign_store}
use pelican_bench.Store.Sound.{IsSound}
use pelican_bench.Store.Sound.Holders.{InGrains}
use pelican_bench.Store.History.{
  History, start, more, heartbeat, complete, lease, History-reconcile,
}
use pelican_bench.Worker.Outcome.{Scorecard}
use pelican_bench.Worker.Records.{
  CampaignCellExecution, WorkerCodec, write_immutable, same_execution, record_path, with_hash,
}
use pelican_bench.Worker.Beats.{HeartbeatResult, Tick, Beating, beat, beat_request, beaten}
use pelican_bench.Worker.Settlement.{
  Adapter, RunOutcome, finished, crashed, Meanwhile, BatchRequest, World, Settlement, time_or,
  check_batch, batch_lease, completion_of, execution_payload,
}
use pelican_bench.Worker.Batch.{
  settle, settlement_of, execute_lease, execute_leases, finish_batch, execute_campaign_batch,
}
use pelican_bench.Worker.Costs.{rounded-InGrains, zero-InGrains, cost_for_result-InGrains}

module _ (d : Codec) (m : CampaignManifest) where
  pub History-append : {s t u : Store} → History d m s t → History d m t u → History d m s u
  History-append before start = before
  History-append before (more after call) = more (History-append before after) call

  -- What other workers do while a lease is in hand is calls of the store's operations.
  pub record Orderly (x : Meanwhile) : Type 0 where
    pub others : (s : Store) → History d m s (x.others s)
    pub ticks : All (λ (t : Tick). (s : Store) → History d m s (t.others s)) x.ticks

  module _ (error_text : Error → String) (l : StoreLease) (extend_seconds : ℕ) where
    beat-History :
        (ticks : List Tick) (b : Beating) {s : Store}
        → All (λ (t : Tick). (s : Store) → History d m s (t.others s)) ticks
        → History d m s b.store
        → History d m s (beat d m error_text l extend_seconds ticks b).store
    unfolding beat
    beat-History [] b calm h = h
    beat-History (t ∷ ticks) b calm h =
        let q = beat_request l extend_seconds t.now in
        let h' = more (History-append h (calm.0 b.store)) (heartbeat q) in
        elim (Result-cases (heartbeat_campaign_lease d m q (t.others b.store)).0) [
          | inl (v, e) ↦ rw (e, beat) (beat-History ticks _ calm.1 h')
          | inr (x, e) ↦ rw (e, beat) h'
        ]

    beaten-History :
        (running : Bool) (ticks : List Tick) (s : Store)
        → All (λ (t : Tick). (s : Store) → History d m s (t.others s)) ticks
        → History d m s (beaten d m error_text l extend_seconds running ticks s).store
    beaten-History true ticks s calm = beat-History ticks _ calm start
    beaten-History false ticks s calm = start

module _ (d : Codec) (w : WorkerCodec) (m : CampaignManifest) (error_text : Error → String)
    (hash : Scorecard → String) (a : Adapter) (q : BatchRequest) (tasks : List (String × Unit {0}))
    (meanwhile : StoreLease → Meanwhile) where
  pub settle-store :
      (l : StoreLease) (x : Settlement) (beats : HeartbeatResult) (world : World)
      → (settle d w m error_text hash a q tasks meanwhile l x beats world).1.store
        ≡ (complete_campaign_lease d m
            (completion_of q.worker_id l x (time_or q.now (meanwhile l).completed_at))
            ((meanwhile l).others world.store)).1
  unfolding settle
  settle-store l x beats world =
      elim (Result-cases
        (complete_campaign_lease d m
          (completion_of q.worker_id l x (time_or q.now (meanwhile l).completed_at))
          ((meanwhile l).others world.store)).0) [
            | inr (e, raised) ↦ rw (raised, settle) refl
            | inl (event, done) ↦
                elim (Result-cases (
                  write_immutable same_execution
                    (record_path w (with_hash w (execution_payload m a l x beats)))
                    (with_hash w (execution_payload m a l x beats)) world.executions)) [
                      | inl (files, wrote) ↦ rw (done, wrote, settle) refl
                      | inr (e, raised) ↦ rw (done, raised, settle) refl
                    ]
          ]

  settle-History :
      (l : StoreLease) (x : Settlement) (beats : HeartbeatResult) (world : World) {s : Store}
      → Orderly d m (meanwhile l)
      → InGrains d m (finite x.cost)
      → History d m s world.store
      → History d m s (settle d w m error_text hash a q tasks meanwhile l x beats world).1.store
  settle-History l x beats world {s} calm grains h = rw (settle-store l x beats world) (
      more (History-append d m h (calm.others world.store)) (
        complete (completion_of q.worker_id l x (time_or q.now (meanwhile l).completed_at)) grains))

  pub settlement-InGrains :
      (l : StoreLease) (o : RunOutcome)
      → InGrains d m (finite (settlement_of d w m error_text hash a q tasks meanwhile l o).cost)
  settlement-InGrains l (finished result) = cost_for_result-InGrains d m l result
  settlement-InGrains l (crashed kind message) = rounded-InGrains d m l.estimated_cost

  pub execute_lease-History :
      (l : StoreLease) (world : World) {s : Store}
      → Orderly d m (meanwhile l)
      → History d m s world.store
      → History d m s (execute_lease d w m error_text hash a q tasks meanwhile l world).1.store
  unfolding execute_lease
  execute_lease-History l world calm h = elim (Option-cases (get l.task_id tasks)) [
    | inl missing ↦
        rw (missing, execute_lease) (settle-History l _ _ world calm (zero-InGrains d m) h)
    | inr (t, there) ↦
        rw (there, execute_lease)
          (settle-History l _ _ _ calm (settlement-InGrains l (meanwhile l).outcome) (
            History-append d m h
              (beaten-History d m error_text l q.lease_seconds _ _ _ calm.ticks)))
  ]

  pub execute_leases-History :
      (ls : List StoreLease) (world : World) {s : Store}
      → ((l : StoreLease) → Orderly d m (meanwhile l))
      → History d m s world.store
      → History d m s (execute_leases d w m error_text hash a q tasks meanwhile ls world).1.store
  unfolding execute_leases
  execute_leases-History [] world calm h = h
  execute_leases-History (l ∷ ls) world calm h =
      let here = execute_lease-History l world (calm l) h in
      elim (Result-cases (execute_lease d w m error_text hash a q tasks meanwhile l world).0) [
        | inr (e, raised) ↦ rw (raised, execute_leases) here
        | inl (x, done) ↦
            let world₁ = (execute_lease d w m error_text hash a q tasks meanwhile l world).1 in
            elim (Result-cases
              (execute_leases d w m error_text hash a q tasks meanwhile ls world₁).0) [
                | inl (xs, rest) ↦
                    rw (done, rest, execute_leases) (execute_leases-History ls world₁ calm here)
                | inr (e, raised) ↦
                    rw (done, raised, execute_leases) (execute_leases-History ls world₁ calm here)
              ]
      ]

  pub finish_batch-store :
      (records : List CampaignCellExecution) (world : World)
      → (finish_batch d w m error_text hash a q tasks meanwhile records world).1.store ≡ world.store
  unfolding finish_batch
  finish_batch-store records world = ground arith

  -- Whether a batch returns or raises, its leasing, heartbeats and completions, with what the other
  -- workers do in between, are a history of the store.
  pub execute_campaign_batch-History :
      (world : World)
      → ((l : StoreLease) → Orderly d m (meanwhile l))
      → History d m world.store
          (execute_campaign_batch d w m error_text hash a q tasks meanwhile world).1.store
  unfolding execute_campaign_batch
  execute_campaign_batch-History world calm = elim (Result-cases (check_batch q)) [
    | inr (e, raised) ↦ rw (raised, execute_campaign_batch) start
    | inl (u, checked) ↦
        let s = (lease_campaign_cells d m (batch_lease q a) world.store).1 in
        let leased = more start (lease (batch_lease q a)) in
        elim (Result-cases (lease_campaign_cells d m (batch_lease q a) world.store).0) [
          | inr (e, raised) ↦ rw (checked, raised, execute_campaign_batch) leased
          | inl (leases, asked) ↦
              let world₀ = record world { store = s } in
              let h = execute_leases-History leases world₀ calm leased in
              let world₁ =
                (execute_leases d w m error_text hash a q tasks meanwhile leases world₀).1 in
              elim (Result-cases
                (execute_leases d w m error_text hash a q tasks meanwhile leases world₀).0) [
                  | inr (e, raised) ↦ rw (checked, asked, raised, execute_campaign_batch) h
                  | inl (records, done) ↦
                      rw (checked, asked, done, execute_campaign_batch)
                        (rw (finish_batch-store records world₁) h)
                ]
        ]
  ]

  -- After a batch on a sound store, whether it returns or raises, and whatever its runs give and its
  -- heartbeats do, the audit of the store finds it valid, if what the other workers do in between is
  -- calls of the store's operations (with costs in whole grains, and no requeue of a leased cell).
  pub execute_campaign_batch-reconcile :
      (world : World)
      → ((l : StoreLease) → Orderly d m (meanwhile l))
      → IsSound d m world.store
      → (reconcile_campaign_store d m
          (execute_campaign_batch d w m error_text hash a q tasks meanwhile world).1.store).valid
        ≡ true
  execute_campaign_batch-reconcile world calm sound =
      History-reconcile d m sound (execute_campaign_batch-History world calm)
