-- ===== src/Worker/Paired.antt =====
-- That the records of a batch of src/pelicanbench/campaign_worker.py are those of its leases, in order.
use pelican_bench.Base.{String, ◌≡◌, refl, ap, subst, none, List, [], ◌∷◌, inl, inr, Option-cases}
use pelican_bench.Base.Dict.{get}
use pelican_bench.Campaign.{CampaignManifest}
use pelican_bench.Store.Result.{Result, ok, err, Error, ok-injective, Result-cases}
use pelican_bench.Store.Tables.{StoreLease}
use pelican_bench.Store.Journal.{Codec}
use pelican_bench.Store.Holder.{complete_campaign_lease}
use pelican_bench.Worker.Outcome.{Scorecard}
use pelican_bench.Worker.Records.{
  CampaignCellExecution, WorkerCodec, write_immutable, same_execution, record_path, with_hash,
}
use pelican_bench.Worker.Beats.{HeartbeatResult}
use pelican_bench.Worker.Settlement.{
  Adapter, Meanwhile, BatchRequest, World, Settlement, time_or, missing_task, completion_of,
  execution_payload,
}
use pelican_bench.Worker.Batch.{settle, execute_lease, execute_leases}

-- A record is that of a lease.
pub record IsOf (l : StoreLease) (x : CampaignCellExecution) : Type 0 where
  pub cell : x.cell_id ≡ l.cell_id
  pub token : x.lease_token ≡ l.lease_token
  pub attempt : x.attempt ≡ l.attempt
  pub task : x.task_id ≡ l.task_id
  pub replicate : x.replicate ≡ l.replicate
  pub seed : x.seed ≡ l.seed

-- One record for each lease, in the same order.
abbrev pub Paired : List StoreLease → List CampaignCellExecution → Type 0
Paired [] [] = Unit
Paired [] (x ∷ xs) = ⊥
Paired (l ∷ ls) [] = ⊥
Paired (l ∷ ls) (x ∷ xs) = IsOf l x × Paired ls xs

module _ (d : Codec) (w : WorkerCodec) (m : CampaignManifest) (error_text : Error → String)
    (hash : Scorecard → String) (a : Adapter) (q : BatchRequest) (tasks : List (String × Unit {0}))
    (meanwhile : StoreLease → Meanwhile) where
  no_record :
      (x : Error) (world : World) {e : CampaignCellExecution} {world' : World}
      → ◌≡◌ {A = Result CampaignCellExecution × World} (err x, world) (ok e, world')
      → ⊥
  no_record x world p = cc

  payload-IsOf :
      (l : StoreLease) (x : Settlement) (beats : HeartbeatResult)
      → IsOf l (with_hash w (execution_payload m a l x beats))
  payload-IsOf l x beats = record {
    cell = refl;
    token = refl;
    attempt = refl;
    task = refl;
    replicate = refl;
    seed = refl;
  }

  settle-IsOf :
      (l : StoreLease) (x : Settlement) (beats : HeartbeatResult) (world world' : World)
      (e : CampaignCellExecution)
      → settle d w m error_text hash a q tasks meanwhile l x beats world ≡ (ok e, world')
      → IsOf l e
  unfolding settle
  settle-IsOf l x beats world world' e done =
      let now = time_or q.now (meanwhile l).completed_at in
      let call =
        complete_campaign_lease d m (completion_of q.worker_id l x now)
          ((meanwhile l).others world.store) in
      let execution = with_hash w (execution_payload m a l x beats) in
      elim (Result-cases call.0) [
        | inr (error, raised) ↦ absurd (no_record error _ (rw (raised, settle) at done))
        | inl (event, answered) ↦
            elim (Result-cases (
              write_immutable same_execution (record_path w execution) execution
                world.executions)) [
                  | inr (error, raised) ↦
                      absurd (no_record error _ (rw (answered, raised, settle) at done))
                  | inl (files, wrote) ↦
                      subst (IsOf l)
                        (ok-injective (
                          ap (λ (r : Result CampaignCellExecution × World). r.0)
                            (rw (answered, wrote, settle) at done)))
                        (payload-IsOf l x beats)
                ]
      ]

  execute_lease-IsOf :
      (l : StoreLease) (world world' : World) (e : CampaignCellExecution)
      → execute_lease d w m error_text hash a q tasks meanwhile l world ≡ (ok e, world')
      → IsOf l e
  unfolding execute_lease
  execute_lease-IsOf l world world' e done = elim (Option-cases (get l.task_id tasks)) [
    | inl missing ↦
        settle-IsOf l (missing_task q.worker_id l) (record { count = 0; error = none }) world world'
          e (rw (missing, execute_lease) at done)
    | inr (t, there) ↦ settle-IsOf l _ _ _ world' e (rw (there, execute_lease) at done)
  ]

  no_records :
      (x : Error) (world : World) {xs : List CampaignCellExecution} {world' : World}
      → ◌≡◌ {A = Result (List CampaignCellExecution) × World} (err x, world) (ok xs, world')
      → ⊥
  no_records x world p = cc

  records_of :
      {ys xs : List CampaignCellExecution} {world world' : World}
      → ◌≡◌ {A = Result (List CampaignCellExecution) × World} (ok ys, world) (ok xs, world')
      → ys ≡ xs
  records_of p = ok-injective (ap (λ (r : Result (List CampaignCellExecution) × World). r.0) p)

  pub execute_leases-Paired :
      (ls : List StoreLease) (world world' : World) (xs : List CampaignCellExecution)
      → execute_leases d w m error_text hash a q tasks meanwhile ls world ≡ (ok xs, world')
      → Paired ls xs
  unfolding execute_leases
  execute_leases-Paired [] world world' xs done = subst (Paired []) (records_of done) tt
  execute_leases-Paired (l ∷ ls) world world' xs done =
      let first = execute_lease d w m error_text hash a q tasks meanwhile l world in
      let rest = execute_leases d w m error_text hash a q tasks meanwhile ls first.1 in
      elim (Result-cases first.0) [
        | inr (error, raised) ↦ absurd (no_records error _ (rw (raised, execute_leases) at done))
        | inl (x, ran) ↦ elim (Result-cases rest.0) [
          | inr (error, raised) ↦
              absurd (no_records error _ (rw (ran, raised, execute_leases) at done))
          | inl (ys, others) ↦
              subst (Paired (l ∷ ls)) (records_of (rw (ran, others, execute_leases) at done)) (
                execute_lease-IsOf l world first.1 x (λ i. (ran i, first.1)),
                execute_leases-Paired ls first.1 rest.1 ys (λ i. (others i, rest.1)),
              )
        ]
      ]
