-- ===== src/Worker/Kept.antt =====
-- The record files that src/pelicanbench/campaign_worker.py has written stay as they are.
use pelican_bench.Base.{
  String, ◌≡◌, subst, ◌∙◌, Bool, false, Option, none, some, List, [], ◌∷◌, arith, ◌==◌, eq_iff,
  Bool-cases, Option-cases, inl, inr,
}
use pelican_bench.Base.Dict.{get, get-put_ne}
use pelican_bench.Store.Result.{Result, ok, err, ok-injective, Result-cases}
use pelican_bench.Campaign.{CampaignManifest}
use pelican_bench.Store.Result.{Error}
use pelican_bench.Store.Tables.{StoreLease}
use pelican_bench.Store.Journal.{Codec}
use pelican_bench.Store.Lease.{lease_campaign_cells}
use pelican_bench.Store.Holder.{complete_campaign_lease}
use pelican_bench.Worker.Outcome.{Scorecard}
use pelican_bench.Worker.Records.{
  CampaignCellExecution, WorkerCodec, write_immutable, same_execution, record_path, with_hash,
}
use pelican_bench.Worker.Beats.{HeartbeatResult}
use pelican_bench.Worker.Settlement.{
  Adapter, Meanwhile, BatchRequest, World, Settlement, time_or, check_batch, batch_lease,
  completion_of, execution_payload,
}
use pelican_bench.Worker.Batch.{
  settle, execute_lease, execute_leases, finish_batch, execute_campaign_batch,
}

module _ {ℓ} {V : Type ℓ} (same : V → V → Bool) where
  found_missing : {v : V} {o : Option V} → o ≡ some v → o ≡ none → ⊥
  found_missing p q = cc

  -- A write of an immutable file that returned has left every file as it was.
  pub write_immutable-get :
      (path p : String) (value v : V) (files files' : List (String × V))
      → write_immutable same path value files ≡ ok files'
      → get p files ≡ some v
      → get p files' ≡ some v
  unfolding write_immutable
  write_immutable-get path p value v files files' wrote there =
      elim (Option-cases (get path files)) [
        | inl new ↦
            subst (λ (x : List (String × V)). get p x ≡ some v)
              (ok-injective (rw (new, write_immutable) at wrote))
              (get-put_ne p path value files (differ new) ∙ there)
        | inr (old, found) ↦ elim (Bool-cases (same old value)) [
          | inl e ↦
              subst (λ (x : List (String × V)). get p x ≡ some v)
                (ok-injective (rw (found, e, write_immutable) at wrote)) there
          | inr e ↦ absurd (refused (rw (found, e, write_immutable) at wrote))
        ]
      ]
    where
      differ : get path files ≡ none → (path == p) ≡ false
      differ new = elim (Bool-cases (path == p)) [
        | inl e ↦ absurd (found_missing there (rw (← (eq_iff path p).0 e) new))
        | inr e ↦ e
      ]

      refused :
          {x : _} {y : List (String × V)} → ◌≡◌ {A = Result (List (String × V))} (err x) (ok y) → ⊥
      refused p = cc

module _ (d : Codec) (w : WorkerCodec) (m : CampaignManifest) (error_text : Error → String)
    (hash : Scorecard → String) (a : Adapter) (q : BatchRequest) (tasks : List (String × Unit {0}))
    (meanwhile : StoreLease → Meanwhile) (path : String) (x : CampaignCellExecution) where
  -- the file of the record `x` is there
  abbrev HasFile : World → Type 0
  HasFile world = get path world.executions ≡ some x

  settle-HasFile :
      (l : StoreLease) (s : Settlement) (beats : HeartbeatResult) (world : World)
      → HasFile world
      → HasFile (settle d w m error_text hash a q tasks meanwhile l s beats world).1
  unfolding settle
  settle-HasFile l s beats world h =
      let now = time_or q.now (meanwhile l).completed_at in
      let call =
        complete_campaign_lease d m (completion_of q.worker_id l s now)
          ((meanwhile l).others world.store) in
      let e = with_hash w (execution_payload m a l s beats) in
      elim (Result-cases call.0) [
        | inr (error, raised) ↦ rw (raised, settle) h
        | inl (event, answered) ↦
            elim (Result-cases
              (write_immutable same_execution (record_path w e) e world.executions)) [
                | inr (error, raised) ↦ rw (answered, raised, settle) h
                | inl (files, wrote) ↦
                    rw (answered, wrote, settle)
                      (write_immutable-get same_execution (record_path w e) path e x
                        world.executions files wrote h)
              ]
      ]

  execute_lease-HasFile :
      (l : StoreLease) (world : World)
      → HasFile world
      → HasFile (execute_lease d w m error_text hash a q tasks meanwhile l world).1
  unfolding execute_lease
  execute_lease-HasFile l world h = elim (Option-cases (get l.task_id tasks)) [
    | inl missing ↦ rw (missing, execute_lease) (settle-HasFile l _ _ world h)
    | inr (t, there) ↦ rw (there, execute_lease) (settle-HasFile l _ _ _ h)
  ]

  execute_leases-HasFile :
      (ls : List StoreLease) (world : World)
      → HasFile world
      → HasFile (execute_leases d w m error_text hash a q tasks meanwhile ls world).1
  unfolding execute_leases
  execute_leases-HasFile [] world h = h
  execute_leases-HasFile (l ∷ ls) world h =
      let first = execute_lease d w m error_text hash a q tasks meanwhile l world in
      let rest = execute_leases d w m error_text hash a q tasks meanwhile ls first.1 in
      let here = execute_lease-HasFile l world h in
      elim (Result-cases first.0) [
        | inr (error, raised) ↦ rw (raised, execute_leases) here
        | inl (e, ran) ↦ elim (Result-cases rest.0) [
          | inr (error, raised) ↦
              rw (ran, raised, execute_leases) (execute_leases-HasFile ls first.1 here)
          | inl (es, others) ↦
              rw (ran, others, execute_leases) (execute_leases-HasFile ls first.1 here)
        ]
      ]

  finish_batch-executions :
      (records : List CampaignCellExecution) (world : World)
      → (finish_batch d w m error_text hash a q tasks meanwhile records world).1.executions
        ≡ world.executions
  unfolding finish_batch
  finish_batch-executions records world = ground arith

  -- The file of a record, once it is there, holds the same record after every batch, whether the batch
  -- returns or raises.
  pub execute_campaign_batch-get :
      (world : World)
      → get path world.executions ≡ some x
      → get path
          (execute_campaign_batch d w m error_text hash a q tasks meanwhile world).1.executions
        ≡ some x
  unfolding execute_campaign_batch
  execute_campaign_batch-get world h =
      let asked = lease_campaign_cells d m (batch_lease q a) world.store in
      elim (Result-cases (check_batch q)) [
        | inr (e, raised) ↦ rw (raised, execute_campaign_batch) h
        | inl (u, checked) ↦ elim (Result-cases asked.0) [
          | inr (e, raised) ↦ rw (checked, raised, execute_campaign_batch) h
          | inl (leases, answered) ↦
              let world₀ = record world { store = asked.1 } in
              let ran = execute_leases d w m error_text hash a q tasks meanwhile leases world₀ in
              let kept = execute_leases-HasFile leases world₀ h in
              elim (Result-cases ran.0) [
                | inr (e, raised) ↦ rw (checked, answered, raised, execute_campaign_batch) kept
                | inl (records, done) ↦
                    rw (checked, answered, done, execute_campaign_batch)
                      (rw (finish_batch-executions records ran.1) kept)
              ]
        ]
      ]
