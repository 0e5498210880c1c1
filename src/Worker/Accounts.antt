-- ===== src/Worker/Accounts.antt =====
-- Every record of a batch of src/pelicanbench/campaign_worker.py has its event in the store's journal.
use pelican_bench.Base.{
  ℕ, suc, String, ◌≡◌, refl, sym, ap, subst, ◌∙◌, Bool, true, false, none, some, List, [], ◌∷◌,
  ◌++◌, arith, inl, inr, Option-cases,
}
use pelican_bench.Base.Int.{pos}
use pelican_bench.Base.Lists.{All, Has, Has-append, length}
use pelican_bench.Base.Dict.{get}
use pelican_bench.Campaign.{CampaignManifest, CellState, succeeded, quarantined, failed}
use pelican_bench.Store.Result.{Result, ok, err, Error, ok-injective, Result-cases}
use pelican_bench.Store.Money.{finite}
use pelican_bench.Store.Tables.{Store, EventRow, StoreLease}
use pelican_bench.Store.Journal.{Codec}
use pelican_bench.Store.Holder.{complete_campaign_lease}
use pelican_bench.Store.Sound.{IsSound}
use pelican_bench.Store.Sound.Writes.{Writes-IsSound}
use pelican_bench.Store.Sound.Holders.{InGrains}
use pelican_bench.Store.History.{start, journal_grows, History-Writes}
use pelican_bench.Worker.Outcome.{
  Scorecard, RunResult, Trial, Failure, terminal_outcome, scored_outcome,
}
use pelican_bench.Worker.Records.{
  CampaignCellExecution, WorkerCodec, write_immutable, same_execution, record_path, with_hash,
}
use pelican_bench.Worker.Beats.{HeartbeatResult}
use pelican_bench.Worker.Settlement.{
  Adapter, RunOutcome, finished, crashed, Meanwhile, BatchRequest, World, Settlement, time_or,
  missing_task, kept_artifact, completion_of, execution_payload,
}
use pelican_bench.Worker.Batch.{settle, settlement_of, execute_lease, execute_leases}
use pelican_bench.Worker.Costs.{zero-InGrains}
use pelican_bench.Worker.Matching.{Matches, finite_cost-pos, complete-Records}
use pelican_bench.Worker.Safe.{
  Orderly, settlement-InGrains, execute_lease-History, execute_leases-History,
}

-- the states in which a worker leaves a cell
abbrev pub is_outcome : CellState → Bool
is_outcome succeeded = true
is_outcome quarantined = true
is_outcome failed = true
is_outcome _ = false

scored_outcome-is_outcome : (score : Scorecard) → is_outcome (scored_outcome score).state ≡ true
unfolding get
scored_outcome-is_outcome score = ground arith

pub terminal_outcome-is_outcome :
    (result : RunResult) → is_outcome (terminal_outcome result).state ≡ true
unfolding terminal_outcome
terminal_outcome-is_outcome result =
    go result.failures refl result.trials refl result.scorecards refl
  where
    go :
        (fs : List Failure)
        → result.failures ≡ fs
        → (ts : List Trial) → result.trials ≡ ts
        → (ss : List Scorecard) → result.scorecards ≡ ss
        → is_outcome (terminal_outcome result).state ≡ true
    go (f ∷ fs) e ts e' ss e'' = rw (e, terminal_outcome) refl
    go [] e [] e' ss e'' = rw (e, e', terminal_outcome) refl
    go [] e (t ∷ ts) e' [] e'' = rw (e, e', e'', terminal_outcome) refl
    go [] e (t ∷ ts) e' (score ∷ others) e'' =
        rw (e, e', e'', terminal_outcome) (scored_outcome-is_outcome score)

-- A record is of an outcome, and its event is in the journal.
pub record Accounted (events : List EventRow) (x : CampaignCellExecution) : Type 0 where
  pub outcome : is_outcome x.terminal_state ≡ true
  pub event : EventRow
  pub has : Has event events
  pub matches : Matches x.payload event

Accounted-append :
    (newer events : List EventRow) (x : CampaignCellExecution)
    → Accounted events x
    → Accounted (newer ++ events) x
Accounted-append newer events x h = record {
  outcome = h.outcome;
  event = h.event;
  has = Has-append newer h.event events h.has;
  matches = h.matches;
}

module _ (d : Codec) (w : WorkerCodec) (m : CampaignManifest) (error_text : Error → String)
    (hash : Scorecard → String) (a : Adapter) (q : BatchRequest) (tasks : List (String × Unit {0}))
    (meanwhile : StoreLease → Meanwhile) where
  -- what the three branches have in common
  record Fair (x : Settlement) : Type 0 where
    pub worker : x.worker ≡ q.worker_id
    pub outcome : is_outcome x.outcome.state ≡ true
    pub artifact : x.charged_artifact ≡ kept_artifact x.outcome.state x.artifact_id
    pub grains : InGrains d m (finite x.cost)

  settlement-Fair :
      (l : StoreLease) (o : RunOutcome)
      → l.worker_id ≡ q.worker_id
      → Fair (settlement_of d w m error_text hash a q tasks meanwhile l o)
  settlement-Fair l (finished result) own = record {
    worker = own;
    outcome = terminal_outcome-is_outcome result;
    artifact = refl;
    grains = settlement-InGrains d w m error_text hash a q tasks meanwhile l (finished result);
  }
  settlement-Fair l (crashed kind message) own = record {
    worker = refl;
    outcome = refl;
    artifact = refl;
    grains = settlement-InGrains d w m error_text hash a q tasks meanwhile l (crashed kind message);
  }

  completed-Matches :
      (l : StoreLease) (x : Settlement) (beats : HeartbeatResult) (s s' : Store) (event : EventRow)
      → Fair x
      → complete_campaign_lease d m
          (completion_of q.worker_id l x (time_or q.now (meanwhile l).completed_at))
          s
        ≡ (ok event, s')
      → Accounted s'.events (with_hash w (execution_payload m a l x beats))
  completed-Matches l x beats s s' event fair done =
      let (n, charged, r, has) =
        complete-Records d m
          (completion_of q.worker_id l x (time_or q.now (meanwhile l).completed_at)) s s' event
          done in
      record {
        outcome = fair.outcome;
        event = event;
        has = has;
        matches = record {
          campaign = r.campaign;
          cell = r.cell;
          worker = r.worker ∙ ap (λ (t : String). some t) (sym fair.worker);
          token = r.token;
          state = r.state;
          reason = r.reason;
          artifact = r.artifact ∙ fair.artifact;
          cost =
              ap (λ (k : ℕ). pos k) (r.cost ∙ fair.grains n charged)
              ∙ finite_cost-pos x.cost n charged;
        };
      }

  no_record :
      (x : Error) (world : World) {e : CampaignCellExecution} {world' : World}
      → ◌≡◌ {A = Result CampaignCellExecution × World} (err x, world) (ok e, world')
      → ⊥
  no_record x world p = cc

  settle-Accounted :
      (l : StoreLease) (x : Settlement) (beats : HeartbeatResult) (world world' : World)
      (e : CampaignCellExecution)
      → Fair x
      → settle d w m error_text hash a q tasks meanwhile l x beats world ≡ (ok e, world')
      → Accounted world'.store.events e
  unfolding settle
  settle-Accounted l x beats world world' e fair done =
      let now = time_or q.now (meanwhile l).completed_at in
      let call =
        complete_campaign_lease d m (completion_of q.worker_id l x now)
          ((meanwhile l).others world.store) in
      let execution = with_hash w (execution_payload m a l x beats) in
      elim (Result-cases call.0) [
        | inr (error, raised) ↦ absurd (no_record error _ (rw (raised, settle) at done))
        | inl (event, answered) ↦
            elim (Result-cases (
              write_immutable same_execution (record_path w execution) execution
                world.executions)) [
                  | inr (error, raised) ↦
                      absurd (no_record error _ (rw (answered, raised, settle) at done))
                  | inl (files, wrote) ↦
                      let end = rw (answered, wrote, settle) at done in
                      let h =
                        completed-Matches l x beats ((meanwhile l).others world.store) call.1 event
                          fair (λ i. (answered i, call.1)) in
                      subst (λ (o : World). Accounted o.store.events e)
                        (ap (λ (r : Result CampaignCellExecution × World). r.1) end)
                        (subst (λ (o : CampaignCellExecution). Accounted call.1.events o)
                          (ok-injective
                            (ap (λ (r : Result CampaignCellExecution × World). r.0) end))
                          h)
                ]
      ]

  execute_lease-Accounted :
      (l : StoreLease) (world world' : World) (e : CampaignCellExecution)
      → l.worker_id ≡ q.worker_id
      → execute_lease d w m error_text hash a q tasks meanwhile l world ≡ (ok e, world')
      → Accounted world'.store.events e
  unfolding execute_lease
  execute_lease-Accounted l world world' e own done = elim (Option-cases (get l.task_id tasks)) [
    | inl missing ↦
        settle-Accounted l (missing_task q.worker_id l) (record { count = 0; error = none }) world
          world' e
          (record { worker = refl; outcome = refl; artifact = refl; grains = zero-InGrains d m })
          (rw (missing, execute_lease) at done)
    | inr (t, there) ↦
        settle-Accounted l _ _ _ world' e (settlement-Fair l (meanwhile l).outcome own)
          (rw (there, execute_lease) at done)
  ]

  no_records :
      (x : Error) (world : World) {xs : List CampaignCellExecution} {world' : World}
      → ◌≡◌ {A = Result (List CampaignCellExecution) × World} (err x, world) (ok xs, world')
      → ⊥
  no_records x world p = cc

  returned_records :
      (ls : List StoreLease) (ys : List CampaignCellExecution) (world world' : World)
      (xs : List CampaignCellExecution)
      → All (Accounted world.store.events) ys × (length ys ≡ length ls)
      → ◌≡◌ {A = Result (List CampaignCellExecution) × World} (ok ys, world) (ok xs, world')
      → All (Accounted world'.store.events) xs × (length xs ≡ length ls)
  returned_records ls ys world world' xs h same =
      subst (λ (o : World). All (Accounted o.store.events) xs × (length xs ≡ length ls))
        (ap (λ (r : Result (List CampaignCellExecution) × World). r.1) same)
        (subst
          (λ (zs : List CampaignCellExecution).
            All (Accounted world.store.events) zs × (length zs ≡ length ls))
          (ok-injective (ap (λ (r : Result (List CampaignCellExecution) × World). r.0) same)) h)

  -- The records that the loop returns are one for each lease, and each has its event in the journal.
  pub execute_leases-Accounted :
      (ls : List StoreLease) (world world' : World) (xs : List CampaignCellExecution)
      → ((l : StoreLease) → Orderly d m (meanwhile l))
      → IsSound d m world.store
      → All (λ (l : StoreLease). l.worker_id ≡ q.worker_id) ls
      → execute_leases d w m error_text hash a q tasks meanwhile ls world ≡ (ok xs, world')
      → All (Accounted world'.store.events) xs × (length xs ≡ length ls)
  unfolding execute_leases
  execute_leases-Accounted [] world world' xs calm sound own done =
      returned_records [] [] world world' xs (tt, refl) done
  execute_leases-Accounted (l ∷ ls) world world' xs calm sound own done =
      let first = execute_lease d w m error_text hash a q tasks meanwhile l world in
      let rest = execute_leases d w m error_text hash a q tasks meanwhile ls first.1 in
      elim (Result-cases first.0) [
        | inr (error, raised) ↦ absurd (no_records error _ (rw (raised, execute_leases) at done))
        | inl (x, ran) ↦ elim (Result-cases rest.0) [
          | inr (error, raised) ↦
              absurd (no_records error _ (rw (ran, raised, execute_leases) at done))
          | inl (ys, others) ↦
              let here = execute_lease-Accounted l world first.1 x own.0 (λ i. (ran i, first.1)) in
              let sound₁ = Writes-IsSound d m sound (
                History-Writes d m sound (
                  execute_lease-History d w m error_text hash a q tasks meanwhile l world (calm l)
                    start)) in
              let (newer, grown) = journal_grows d m sound₁ (
                execute_leases-History d w m error_text hash a q tasks meanwhile ls first.1 calm
                  start) in
              let tail =
                execute_leases-Accounted ls first.1 rest.1 ys calm sound₁ own.1
                  (λ i. (others i, rest.1)) in
              let there : Accounted rest.1.store.events x =
                rw grown (Accounted-append newer first.1.store.events x here) in
              returned_records (l ∷ ls) (x ∷ ys) rest.1 world' xs
                ((there, tail.0), ap (λ (n : ℕ). suc n) tail.1)
                (rw (ran, others, execute_leases) at done)
        ]
      ]
