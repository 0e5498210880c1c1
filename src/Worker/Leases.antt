-- ===== src/Worker/Leases.antt =====
-- Whose the leases are that `execute_campaign_batch` (src/pelicanbench/campaign_worker.py) works on.
use pelican_bench.Base.{ℕ, ◌≡◌, refl, ap, subst, List, [], ◌∷◌, inl, inr}
use pelican_bench.Base.Int.{ℤ}
use pelican_bench.Base.Lists.{All, All-snoc}
use pelican_bench.Campaign.{CampaignManifest}
use pelican_bench.Store.Result.{
  Result, Error, ok, err, >>=-eq-ok, ok-injective, ok-pair, Result-cases,
}
use pelican_bench.Store.Time.{Timestamp}
use pelican_bench.Store.Tables.{Store, CellRow, StoreLease}
use pelican_bench.Store.Journal.{Codec, verify_manifest}
use pelican_bench.Store.Queries.{transaction_ok, query, spent_cost}
use pelican_bench.Store.Reclaim.{reclaim_expired}
use pelican_bench.Store.Lease.{
  LeaseRequest, Round, is_candidate, first_round, lease_row, lease_rows, lease_body, check_request,
  lease_campaign_cells,
}
use pelican_bench.Store.Loops.Leasing.{LeaseRound, skip, give, lease_row_ok}

-- the worker that asked is the worker that a lease names
abbrev pub IsOwn : LeaseRequest → StoreLease → Type 0
IsOwn q l = l.worker_id ≡ q.worker_id

module _ (d : Codec) (m : CampaignManifest) (q : LeaseRequest) where
  round-IsOwn :
      (budget : ℤ) (spent : ℕ) (expires_at : Timestamp) (row : CellRow) (l l' : Round)
      → All (IsOwn q) l.leases
      → LeaseRound d m q budget spent expires_at row l l'
      → All (IsOwn q) l'.leases
  round-IsOwn budget spent expires_at row l l' h (skip same) = rw same h
  round-IsOwn budget spent expires_at row l l' h (give estimate token calls event s g same) =
      rw same (All-snoc (IsOwn q) l.leases _ h refl)

  lease_rows-IsOwn :
      (budget : ℤ) (spent : ℕ) (expires_at : Timestamp) (rows : List CellRow) (l : Round)
      {l' : Round}
      → All (IsOwn q) l.leases
      → lease_rows d m q budget spent expires_at rows l ≡ ok l'
      → All (IsOwn q) l'.leases
  unfolding lease_rows
  lease_rows-IsOwn budget spent expires_at [] l h done =
      subst (λ (x : Round). All (IsOwn q) x.leases) (ok-injective done) h
  lease_rows-IsOwn budget spent expires_at (row ∷ rows) l h done =
      let (l₂, first, rest) = >>=-eq-ok (lease_row d m q budget spent expires_at row l) _ done in
      lease_rows-IsOwn budget spent expires_at rows l₂
        (round-IsOwn budget spent expires_at row l l₂ h
          (lease_row_ok d m q budget spent expires_at row l first))
        rest

  lease_body-IsOwn :
      (budget : ℤ) (expires_at : Timestamp) (s s' : Store) (leases : List StoreLease)
      → lease_body d m q budget expires_at s ≡ ok (leases, s')
      → All (IsOwn q) leases
  unfolding lease_body
  lease_body-IsOwn budget expires_at s s' leases done =
      let (_, _, reclaim) = >>=-eq-ok (verify_manifest d m s) _ done in
      let ((_, s₁), _, loop) = >>=-eq-ok (reclaim_expired d m q.now s) _ reclaim in
      let (l, looped, end) =
        >>=-eq-ok
          (lease_rows d m q budget (spent_cost s₁.cells) expires_at
            (query (is_candidate q) s₁.cells) (first_round d m q s₁))
          _ loop in
      subst (All (IsOwn q)) (ok-pair end).0 (
        lease_rows-IsOwn budget (spent_cost s₁.cells) expires_at (query (is_candidate q) s₁.cells)
          (first_round d m q s₁) tt looped)

  -- Every lease that a call returns names the worker that asked for it.
  pub lease_campaign_cells-IsOwn :
      (s s' : Store) (leases : List StoreLease)
      → lease_campaign_cells d m q s ≡ (ok leases, s')
      → All (IsOwn q) leases
  unfolding lease_campaign_cells
  lease_campaign_cells-IsOwn s s' leases done = elim (Result-cases (check_request d m q)) [
    | inl (r, e) ↦
        lease_body-IsOwn r.0 r.1 s s' leases
          (transaction_ok (lease_body d m q r.0 r.1) s (rw (e, lease_campaign_cells) at done))
    | inr (x, e) ↦ absurd (
        raised x (
          ap (λ (p : Result (List StoreLease) × Store). p.0)
            (rw (e, lease_campaign_cells) at done)))
  ]
    where
      raised : (x : Error) → ◌≡◌ {A = Result (List StoreLease)} (err x) (ok leases) → ⊥
      raised x p = cc
