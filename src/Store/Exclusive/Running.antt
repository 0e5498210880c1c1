-- ===== src/Store/Exclusive/Running.antt =====
-- The leases that run when `lease_campaign_cells` (src/pelicanbench/campaign_store.py) is called.
use pelican_bench.Base.{
  ℕ, ◌+◌, ◌<◌, String, ◌≡◌, refl, sym, ap, subst, ◌∙◌, false, some, List, arith, ltb, inl, inr,
}
use pelican_bench.Base.Int.{ℤ}
use pelican_bench.Campaign.{CampaignManifest, leased, ready}
use pelican_bench.Store.Result.{ok, >>=-eq-ok, ok-injective, ok-pair, Result-cases}
use pelican_bench.Store.Time.{Timestamp, parse_utc}
use pelican_bench.Store.Tables.{Store, CellRow, EventRow, find_cell}
use pelican_bench.Store.Journal.{Codec, insert_event, verify_manifest}
use pelican_bench.Store.Queries.{transaction_keeps, parse_column, query, spent_cost}
use pelican_bench.Store.Reclaim.{free_row, expiry_draft, may_expire, reclaim_expired}
use pelican_bench.Store.Lease.{
  LeaseRequest, Round, lease_draft, is_candidate, first_round, lease_rows, lease_body,
  check_request, lease_campaign_cells,
}
use pelican_bench.Store.Cells.{find-update_ne, query-IsSnapshot, query-All}
use pelican_bench.Store.Loops.{freed, Ended, reclaim_rows_induction}
use pelican_bench.Store.Loops.Leasing.{granted, Grants, leased_row-KeepsKey, lease_rows_induction}
use pelican_bench.Store.Sound.{IsSound, insert_event_ok}
use pelican_bench.Store.Sound.Writes.{Writes-IsSound}
use pelican_bench.Store.Sound.Operations.{
  is_candidate-ready, may_expire-leased, reclaim_expired-Writes,
}
use pelican_bench.Store.Exclusive.{not_both, keys_differ, granted_row}

-- A running lease: the cell is leased, and the lease ends after the time `now`.
pub record Running (now : Timestamp) (r : CellRow) : Type 0 where
  pub live : r.state ≡ leased
  pub now_value : ℕ
  pub at : parse_utc now ≡ ok now_value
  pub expiry : ℕ
  pub expires : parse_column r.lease_expires_at ≡ ok expiry
  pub later : now_value < expiry

outlives :
    (now : Timestamp) (n : ℕ) (r row : CellRow)
    → Running now r
    → parse_utc now ≡ ok n
    → Ended n row
    → (r ≡ row → ⊥)
outlives now n r row h at e same =
    let p : h.now_value ≡ n = ok-injective (sym h.at ∙ at) in
    let t : h.expiry ≡ e.expiry =
      ok-injective
        (sym h.expires ∙ ap (λ (x : CellRow). parse_column x.lease_expires_at) same ∙ e.expires) in
    still_later h.now_value n h.expiry e.expiry p t h.later e.over
  where
    still_later : (a n b t : ℕ) → a ≡ n → b ≡ t → a < b → ltb n t ≡ false → ⊥
    still_later a n b t p q lt h = ground arith

module _ (d : Codec) (m : CampaignManifest) (now : Timestamp) (k : String) (r : CellRow)
    (running : Running now r) where
  freed_kept :
      (n : ℕ) (row : CellRow) (s s₁ : Store) (event : EventRow)
      → parse_utc now ≡ ok n
      → find_cell k s.cells ≡ some r
      → find_cell row.cell_id s.cells ≡ some row
      → Ended n row
      → insert_event d m (expiry_draft now row) s ≡ ok (event, s₁)
      → find_cell k (freed now row s₁).cells ≡ some r
  freed_kept n row s s₁ event at found there ended done =
      rw (insert_event_ok d m (expiry_draft now row) s done).after (
        find-update_ne row.cell_id k (free_row now) (λ x. refl) s.cells
          (keys_differ k r row s.cells found there (outlives now n r row running at ended))
        ∙ found)

  reclaim_expired_kept :
      (s : Store) {events : List EventRow} {s' : Store}
      → IsSound d m s
      → find_cell k s.cells ≡ some r
      → reclaim_expired d m now s ≡ ok (events, s')
      → find_cell k s'.cells ≡ some r
  unfolding reclaim_expired
  reclaim_expired_kept s h found done =
      let (n, at, rest) = >>=-eq-ok (parse_utc now) _ done in
      reclaim_rows_induction d m now n (λ (x : Store). find_cell k x.cells ≡ some r)
        (λ row x x₁ event p there _ ended inserted.
          freed_kept n row x x₁ event at p there ended inserted)
        (query may_expire s.cells) s found (query-IsSnapshot may_expire s.cells h.unique)
        (query-All (λ (x : CellRow). x.state ≡ leased) may_expire s.cells may_expire-leased) rest

module _ (d : Codec) (m : CampaignManifest) (q : LeaseRequest) (k : String) (r : CellRow) where
  granted_kept :
      (budget : ℤ) (spent : ℕ) (expires_at : Timestamp) (row : CellRow) (l : Round) (estimate : ℤ)
      (token : String) (calls : ℕ) (event : EventRow) (s : Store)
      → r.state ≡ leased
      → find_cell k l.store.cells ≡ some r
      → find_cell row.cell_id l.store.cells ≡ some row
      → row.state ≡ ready
      → Grants d m q budget spent expires_at row l estimate token calls event s
      → find_cell k (granted q expires_at row estimate token calls s l).store.cells ≡ some r
  granted_kept budget spent expires_at row l estimate token calls event s live found there open_cell
        g =
      rw (insert_event_ok d m (lease_draft q token estimate row) l.store g.done).after (
        find-update_ne row.cell_id k (granted_row q token expires_at row)
          (leased_row-KeepsKey q token (row.attempt_count + 1) expires_at) l.store.cells
          (keys_differ k r row l.store.cells found there
            (λ e. not_both row open_cell (subst (λ (x : CellRow). x.state ≡ leased) e live)))
        ∙ found)

  -- While the lease of a cell of a sound store runs, a call of any worker for any cells, whether it
  -- returns or raises, leaves the cell's row as it is.
  pub lease_campaign_cells-Running :
      (s : Store)
      → IsSound d m s
      → find_cell k s.cells ≡ some r
      → Running q.now r
      → find_cell k (lease_campaign_cells d m q s).1.cells ≡ some r
  unfolding lease_campaign_cells lease_body
  lease_campaign_cells-Running s h found running = elim (Result-cases (check_request d m q)) [
    | inr (x, e) ↦ rw (e, lease_campaign_cells) found
    | inl ((budget, expires_at), e) ↦
        rw (e, lease_campaign_cells)
          (transaction_keeps (λ (x : Store). find_cell k x.cells ≡ some r)
            (lease_body d m q budget expires_at) s found
            λ leases s' done.
              let (_, _, reclaim) = >>=-eq-ok (verify_manifest d m s) _ done in
              let ((_, s₁), reclaimed, loop) = >>=-eq-ok (reclaim_expired d m q.now s) _ reclaim in
              let (l, looped, end) =
                >>=-eq-ok
                  (lease_rows d m q budget (spent_cost s₁.cells) expires_at
                    (query (is_candidate q) s₁.cells) (first_round d m q s₁))
                  _ loop in
              let u =
                (Writes-IsSound d m h (reclaim_expired-Writes d m q.now s h reclaimed)).unique in
              subst (λ (x : Store). find_cell k x.cells ≡ some r) (ok-pair end).1
                (lease_rows_induction d m q budget (spent_cost s₁.cells) expires_at
                  (λ (x : Round). find_cell k x.store.cells ≡ some r)
                  (λ row l₀ estimate token calls event s₂ p there open_cell g.
                    granted_kept budget (spent_cost s₁.cells) expires_at row l₀ estimate token calls
                      event s₂ running.live p there open_cell g)
                  (query (is_candidate q) s₁.cells) (first_round d m q s₁)
                  (reclaim_expired_kept d m q.now k r running s h found reclaimed)
                  (query-IsSnapshot (is_candidate q) s₁.cells u)
                  (query-All (λ (x : CellRow). x.state ≡ ready) (is_candidate q) s₁.cells
                    (is_candidate-ready q))
                  looped))
  ]
