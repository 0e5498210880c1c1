-- ===== src/Store/Sound/Operations.antt =====
-- Reclaiming and leasing (src/pelicanbench/campaign_store.py) as writes, on a sound store.
use pelican_bench.Base.{
  ℕ, ◌+◌, String, ◌≡◌, refl, subst, true, some, List, arith, inl, inr, &&-eq-true,
}
use pelican_bench.Base.Int.{ℤ}
use pelican_bench.Campaign.{CampaignManifest, leased, ready, eq_of_same_state}
use pelican_bench.Store.Result.{ok, >>=-eq-ok, ok-pair, Result-cases}
use pelican_bench.Store.Time.{Timestamp, parse_utc}
use pelican_bench.Store.Money.{round8}
use pelican_bench.Store.Tables.{Store, CellRow, EventRow, StoreLease, is_leased, find_cell}
use pelican_bench.Store.Journal.{Codec, insert_event, verify_manifest}
use pelican_bench.Store.Queries.{transaction_keeps, query, spent_cost}
use pelican_bench.Store.Cells.{query-IsSnapshot, query-All}
use pelican_bench.Store.Reclaim.{
  free_row, expiry_draft, may_expire, reclaim_expired, reclaim_body, reclaim_expired_leases,
}
use pelican_bench.Store.Lease.{
  LeaseRequest, Round, lease_draft, leased_row, is_candidate, first_round, lease_rows, lease_body,
  check_request, lease_campaign_cells,
}
use pelican_bench.Store.Loops.{freed, reclaim_rows_induction}
use pelican_bench.Store.Loops.Leasing.{granted, Grants, leased_row-KeepsKey, lease_rows_induction}
use pelican_bench.Store.Sound.{IsSound}
use pelican_bench.Store.Sound.Writes.{Writes, write, start, more, Writes-IsSound}

-- An event that costs nothing leaves the cell's cost.
pub free_of_charge : (n : ℕ) → n ≡ n + round8 0
unfolding round8
free_of_charge n = omega arith

pub may_expire-leased : (r : CellRow) → may_expire r ≡ true → r.state ≡ leased
may_expire-leased r h = eq_of_same_state r.state leased (&&-eq-true (is_leased r) _ h).0

pub is_candidate-ready :
    (q : LeaseRequest) (r : CellRow) → is_candidate q r ≡ true → r.state ≡ ready
is_candidate-ready q r h = ground arith

module _ (d : Codec) (m : CampaignManifest) where
  freed-Writes :
      (s₀ : Store) (now : Timestamp) (row : CellRow) (s s₁ : Store) (event : EventRow)
      → Writes d m s₀ s
      → find_cell row.cell_id s.cells ≡ some row
      → row.state ≡ leased
      → insert_event d m (expiry_draft now row) s ≡ ok (event, s₁)
      → Writes d m s₀ (freed now row s₁)
  freed-Writes s₀ now row s s₁ event h found live done = more h (
      write (expiry_draft now row) (free_row now) row event s₁ (λ r. refl) found live
        (record { to_state = refl; to_cost = free_of_charge row.actual_cost; clean = refl }) done)

  pub reclaim_expired-Writes :
      (now : Timestamp) (s : Store) {events : List EventRow} {s' : Store}
      → IsSound d m s
      → reclaim_expired d m now s ≡ ok (events, s')
      → Writes d m s s'
  unfolding reclaim_expired
  reclaim_expired-Writes now s h done =
      let (t, _, rest) = >>=-eq-ok (parse_utc now) _ done in
      reclaim_rows_induction d m now t (Writes d m s)
        (λ row x x₁ event h found live _ done. freed-Writes s now row x x₁ event h found live done)
        (query may_expire s.cells) s start (query-IsSnapshot may_expire s.cells h.unique)
        (query-All (λ (r : CellRow). r.state ≡ leased) may_expire s.cells may_expire-leased) rest

  pub reclaim_expired_leases-Writes :
      (now : Timestamp) (s : Store)
      → IsSound d m s
      → Writes d m s (reclaim_expired_leases d m now s).1
  unfolding reclaim_expired_leases reclaim_body
  reclaim_expired_leases-Writes now s h =
      transaction_keeps (Writes d m s) (reclaim_body d m now) s start λ events s' done.
        let (_, _, rest) = >>=-eq-ok (verify_manifest d m s) _ done in
        reclaim_expired-Writes now s h rest

  granted-Writes :
      (s₀ : Store) (q : LeaseRequest) (budget : ℤ) (spent : ℕ) (expires_at : Timestamp)
      (row : CellRow) (l : Round) (estimate : ℤ) (token : String) (calls : ℕ) (event : EventRow)
      (s : Store)
      → Writes d m s₀ l.store
      → find_cell row.cell_id l.store.cells ≡ some row
      → row.state ≡ ready
      → Grants d m q budget spent expires_at row l estimate token calls event s
      → Writes d m s₀ (granted q expires_at row estimate token calls s l).store
  granted-Writes s₀ q budget spent expires_at row l estimate token calls event s h found open_cell
        g =
      more h (
        write (lease_draft q token estimate row)
          (leased_row q token (row.attempt_count + 1) expires_at) row event s
          (leased_row-KeepsKey q token (row.attempt_count + 1) expires_at) found open_cell
          (record {
            to_state = rw open_cell refl;
            to_cost = rw open_cell (free_of_charge row.actual_cost);
            clean = rw open_cell refl;
          })
          g.done)

  lease_body-Writes :
      (q : LeaseRequest) (budget : ℤ) (expires_at : Timestamp) (s : Store)
      {leases : List StoreLease} {s' : Store}
      → IsSound d m s
      → lease_body d m q budget expires_at s ≡ ok (leases, s')
      → Writes d m s s'
  unfolding lease_body
  lease_body-Writes q budget expires_at s h done =
      let (_, _, reclaim) = >>=-eq-ok (verify_manifest d m s) _ done in
      let ((_, s₁), reclaimed, loop) = >>=-eq-ok (reclaim_expired d m q.now s) _ reclaim in
      let spent = spent_cost s₁.cells in
      let rows = query (is_candidate q) s₁.cells in
      let first = first_round d m q s₁ in
      let (l, looped, end) =
        >>=-eq-ok (lease_rows d m q budget spent expires_at rows first) _ loop in
      let w = reclaim_expired-Writes q.now s h reclaimed in
      let h₁ = Writes-IsSound d m h w in
      subst (Writes d m s) (ok-pair end).1 (
        lease_rows_induction d m q budget spent expires_at (λ (r : Round). Writes d m s r.store)
          (granted-Writes s q budget spent expires_at) rows first w
          (query-IsSnapshot (is_candidate q) s₁.cells h₁.unique)
          (query-All (λ (r : CellRow). r.state ≡ ready) (is_candidate q) s₁.cells
            (is_candidate-ready q))
          looped)

  pub lease_campaign_cells-Writes :
      (q : LeaseRequest) (s : Store) → IsSound d m s → Writes d m s (lease_campaign_cells d m q s).1
  unfolding lease_campaign_cells
  lease_campaign_cells-Writes q s h = elim (Result-cases (check_request d m q)) [
    | inl (r, e) ↦
        rw (e, lease_campaign_cells)
          (transaction_keeps (Writes d m s) (lease_body d m q r.0 r.1) s start
            (λ a s' done. lease_body-Writes q r.0 r.1 s h done))
    | inr (x, e) ↦ rw (e, lease_campaign_cells) start
  ]
