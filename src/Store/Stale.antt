-- ===== src/Store/Stale.antt =====
-- What `requeue_failed_cell` (src/pelicanbench/campaign_store.py) does to a leased cell, and what
-- `reconcile_campaign_store` then says.
use pelican_bench.Base.{
  String, ◌≡◌, refl, sym, ap, ◌∙◌, Bool, true, false, not, some, List, [], ◌∷◌, arith, is_none,
  Option-cases, inl, inr,
}
use pelican_bench.Base.Lists.{all}
use pelican_bench.Campaign.{CampaignManifest, leased}
use pelican_bench.Store.Result.{ok, >>=-eq-ok, ok-pair}
use pelican_bench.Store.Tables.{Store, CellRow, EventRow, find_cell, update_cell}
use pelican_bench.Store.Journal.{Codec, insert_event, verify_manifest}
use pelican_bench.Store.Queries.{transaction_ok, require_cell}
use pelican_bench.Store.Requeue.{
  RequeueRequest, requeue_draft, requeued_row, requeue_body, requeue_failed_cell,
}
use pelican_bench.Store.Reconcile.{
  find_replay, against, lease_agrees, lease_is_clean, reconcile_campaign_store, replay_events,
}
use pelican_bench.Store.Cells.{find-update_self}
use pelican_bench.Store.Sound.{IsSound, find_replay-Tracks, insert_event_ok}

-- a test that a row of the table fails
all_fails :
    (test : CellRow → Bool) (k : String) (r : CellRow) (rows : List CellRow)
    → find_cell k rows ≡ some r
    → test r ≡ false
    → all test rows ≡ false
unfolding find_cell
all_fails test k r [] found fails = cc
all_fails test k r (x ∷ rows) found fails = ground (arith, all_fails test k r rows)

-- A row that is not clean makes the audit fail.
unclean-invalid :
    (d : Codec) (m : CampaignManifest) (s : Store) (k : String) (r : CellRow)
    → find_cell k s.cells ≡ some r
    → lease_is_clean r ≡ false
    → (reconcile_campaign_store d m s).valid ≡ false
unfolding reconcile_campaign_store
unclean-invalid d m s k r found unclean =
    let cs = (replay_events d m s.events).0.replayed in
    elim (Option-cases (find_replay r.cell_id cs)) [
      | inl missing ↦
          let e =
            all_fails (λ (x : CellRow). not (is_none (find_replay x.cell_id cs))) k r s.cells found
              (rw missing refl) in
          ground (arith, e)
      | inr (c, there) ↦
          let e =
            all_fails (against lease_agrees cs) k r s.cells found (rw (there, against) unclean) in
          ground (arith, e)
    ]

-- The row that a requeue leaves of a cell that has a lease is not clean.
requeued-unclean :
    (q : RequeueRequest) (r : CellRow)
    → r.state ≡ leased
    → lease_is_clean r ≡ true
    → lease_is_clean (requeued_row q r) ≡ false
requeued-unclean q r live clean = ground arith

-- If a cell of a sound store is leased and a call of `requeue_failed_cell` for it returns, then the
-- audit finds the store that the call leaves invalid.
pub requeue_leased-invalid :
    (d : Codec) (m : CampaignManifest) (q : RequeueRequest) (s s' : Store) (event : EventRow)
    (r : CellRow)
    → IsSound d m s
    → find_cell q.cell_id s.cells ≡ some r
    → r.state ≡ leased
    → requeue_failed_cell d m q s ≡ (ok event, s')
    → (reconcile_campaign_store d m s').valid ≡ false
unfolding requeue_failed_cell requeue_body
requeue_leased-invalid d m q s s' event r h found live done =
    let (_, _, h₁) =
      >>=-eq-ok (verify_manifest d m s) _ (transaction_ok (requeue_body d m q) s done) in
    let (row, read, h₂) = >>=-eq-ok (require_cell q.cell_id s.cells) _ h₁ in
    let ((written, s₁), inserted, end) =
      >>=-eq-ok (insert_event d m (requeue_draft q row) s) _ h₂ in
    let same : s₁.cells ≡ s.cells =
      ap (λ (x : Store). x.cells) (insert_event_ok d m (requeue_draft q row) s inserted).after in
    let clean = (find_replay-Tracks q.cell_id r s.cells h.view.replayed h.tracks found).2.clean in
    let there : find_cell q.cell_id s'.cells ≡ some (requeued_row q r) =
      ap (λ (x : Store). find_cell q.cell_id x.cells) (sym (ok-pair end).1)
      ∙ ap (λ (x : List CellRow). find_cell q.cell_id (update_cell q.cell_id (requeued_row q) x))
          same
      ∙ find-update_self q.cell_id (requeued_row q) (λ x. refl) r s.cells found in
    unclean-invalid d m s' q.cell_id (requeued_row q r) there (requeued-unclean q r live clean)
