-- ===== src/Store/Exclusive/Held.antt =====
-- The leases that `lease_campaign_cells` (src/pelicanbench/campaign_store.py) returns.
use pelican_bench.Base.{
  ℕ, ◌+◌, ◌≤◌, String, ◌≡◌, refl, ap, subst, ◌∙◌, some, List, [], ◌∷◌, arith, inl, inr,
}
use pelican_bench.Base.Int.{ℤ}
use pelican_bench.Base.Lists.{length_snoc, All-snoc, All, length}
use pelican_bench.Campaign.{CampaignManifest, leased, ready}
use pelican_bench.Store.Result.{Result, Error, ok, err, >>=-eq-ok, ok-pair, Result-cases}
use pelican_bench.Store.Time.{Timestamp}
use pelican_bench.Store.Tables.{Store, CellRow, EventRow, StoreLease, find_cell, update_cell}
use pelican_bench.Store.Journal.{Codec, verify_manifest}
use pelican_bench.Store.Queries.{transaction_ok, query, spent_cost}
use pelican_bench.Store.Reclaim.{reclaim_expired}
use pelican_bench.Store.Lease.{
  LeaseRequest, Round, lease_draft, lease_of, is_candidate, first_round, lease_rows, lease_body,
  check_request, lease_campaign_cells,
}
use pelican_bench.Store.Cells.{find-update_self, find-update_ne, query-IsSnapshot, query-All}
use pelican_bench.Store.Loops.Leasing.{granted, Grants, leased_row-KeepsKey, lease_rows_induction}
use pelican_bench.Store.Sound.{IsSound, insert_event_ok}
use pelican_bench.Store.Sound.Writes.{Writes-IsSound}
use pelican_bench.Store.Sound.Operations.{is_candidate-ready, reclaim_expired-Writes}
use pelican_bench.Store.Exclusive.{not_both, keys_differ, granted_row}

-- the holder that a lease names holds the cell, until the time that the lease names
pub record Holds (cells : List CellRow) (l : StoreLease) : Type 0 where
  pub row : CellRow
  pub found : find_cell l.cell_id cells ≡ some row
  pub live : row.state ≡ leased
  pub owner : row.lease_owner ≡ some l.worker_id
  pub token : row.lease_token ≡ some l.lease_token
  pub since : row.leased_at ≡ some l.leased_at
  pub until : row.lease_expires_at ≡ some l.lease_expires_at
  pub attempt : row.attempt_count ≡ l.attempt
  pub model : row.model_id ≡ l.model_id

-- Every lease is held, and there are no more than were asked for.
pub record AllHeld (limit : ℕ) (leases : List StoreLease) (cells : List CellRow) : Type 0 where
  pub held : All (Holds cells) leases
  pub within : length leases ≤ limit

module _ (q : LeaseRequest) (token : String) (expires_at : Timestamp) (row : CellRow)
    (cells : List CellRow) (there : find_cell row.cell_id cells ≡ some row)
    (open_cell : row.state ≡ ready) where
  held_on :
      (l : StoreLease)
      → Holds cells l
      → Holds (update_cell row.cell_id (granted_row q token expires_at row) cells) l
  held_on l h = record {
    row = h.row;
    live = h.live;
    owner = h.owner;
    token = h.token;
    since = h.since;
    until = h.until;
    attempt = h.attempt;
    model = h.model;
    found =
        find-update_ne row.cell_id l.cell_id (granted_row q token expires_at row)
          (leased_row-KeepsKey q token (row.attempt_count + 1) expires_at) cells
          (keys_differ l.cell_id h.row row cells h.found there
            (λ e. not_both row open_cell (subst (λ (x : CellRow). x.state ≡ leased) e h.live)))
        ∙ h.found;
  }

  kept_leases :
      (ls : List StoreLease)
      → All (Holds cells) ls
      → All (Holds (update_cell row.cell_id (granted_row q token expires_at row) cells)) ls
  kept_leases [] h = tt
  kept_leases (l ∷ ls) h = (held_on l h.0, kept_leases ls h.1)

  new_row : (granted_row q token expires_at row row).state ≡ leased
  new_row = rw open_cell refl

  newly_held :
      (estimate : ℤ)
      → Holds
          (update_cell row.cell_id (granted_row q token expires_at row) cells)
          (lease_of q token estimate expires_at row)
  newly_held estimate = record {
    row = granted_row q token expires_at row row;
    found =
        find-update_self row.cell_id (granted_row q token expires_at row)
          (leased_row-KeepsKey q token (row.attempt_count + 1) expires_at) row cells there;
    live = new_row;
    owner = rw open_cell refl;
    token = rw open_cell refl;
    since = rw open_cell refl;
    until = rw open_cell refl;
    attempt = rw open_cell refl;
    model = rw open_cell refl;
  }

module _ (d : Codec) (m : CampaignManifest) (q : LeaseRequest) where
  granted-AllHeld :
      (budget : ℤ) (spent : ℕ) (expires_at : Timestamp) (row : CellRow) (l : Round) (estimate : ℤ)
      (token : String) (calls : ℕ) (event : EventRow) (s : Store)
      → AllHeld q.limit l.leases l.store.cells
      → find_cell row.cell_id l.store.cells ≡ some row
      → row.state ≡ ready
      → Grants d m q budget spent expires_at row l estimate token calls event s
      → AllHeld q.limit
          (granted q expires_at row estimate token calls s l).leases
          (granted q expires_at row estimate token calls s l).store.cells
  granted-AllHeld budget spent expires_at row l estimate token calls event s h found open_cell g =
      let same : s.cells ≡ l.store.cells =
        ap (λ (x : Store). x.cells)
          (insert_event_ok d m (lease_draft q token estimate row) l.store g.done).after in
      rw same (record {
        held =
            All-snoc _ l.leases _
              (kept_leases q token expires_at row l.store.cells found open_cell l.leases h.held)
              (newly_held q token expires_at row l.store.cells found open_cell estimate);
        within = rw (length_snoc l.leases _) (ground (arith, g.room));
      })

  lease_body-AllHeld :
      (budget : ℤ) (expires_at : Timestamp) (s s' : Store) (leases : List StoreLease)
      → IsSound d m s
      → lease_body d m q budget expires_at s ≡ ok (leases, s')
      → AllHeld q.limit leases s'.cells
  unfolding lease_body
  lease_body-AllHeld budget expires_at s s' leases h done =
      let (_, _, reclaim) = >>=-eq-ok (verify_manifest d m s) _ done in
      let ((_, s₁), reclaimed, loop) = >>=-eq-ok (reclaim_expired d m q.now s) _ reclaim in
      let (l, looped, end) =
        >>=-eq-ok
          (lease_rows d m q budget (spent_cost s₁.cells) expires_at
            (query (is_candidate q) s₁.cells) (first_round d m q s₁))
          _ loop in
      let u = (Writes-IsSound d m h (reclaim_expired-Writes d m q.now s h reclaimed)).unique in
      subst (λ (x : List StoreLease). AllHeld q.limit x s'.cells) (ok-pair end).0
        (subst (λ (x : Store). AllHeld q.limit l.leases x.cells) (ok-pair end).1
          (lease_rows_induction d m q budget (spent_cost s₁.cells) expires_at
            (λ (x : Round). AllHeld q.limit x.leases x.store.cells)
            (granted-AllHeld budget (spent_cost s₁.cells) expires_at)
            (query (is_candidate q) s₁.cells) (first_round d m q s₁)
            (record { held = tt; within = omega arith })
            (query-IsSnapshot (is_candidate q) s₁.cells u)
            (query-All (λ (r : CellRow). r.state ≡ ready) (is_candidate q) s₁.cells
              (is_candidate-ready q))
            looped))

  -- The leases that a call on a sound store returns are held: each cell is leased to the worker, with
  -- the token, the attempt and the times that the lease names, and there are at most `limit` of them.
  pub lease-AllHeld :
      (s s' : Store) (leases : List StoreLease)
      → IsSound d m s
      → lease_campaign_cells d m q s ≡ (ok leases, s')
      → AllHeld q.limit leases s'.cells
  unfolding lease_campaign_cells
  lease-AllHeld s s' leases h done = elim (Result-cases (check_request d m q)) [
    | inl (r, e) ↦
        lease_body-AllHeld r.0 r.1 s s' leases h
          (transaction_ok (lease_body d m q r.0 r.1) s (rw (e, lease_campaign_cells) at done))
    | inr (x, e) ↦ absurd (
        raised x (
          ap (λ (p : Result (List StoreLease) × Store). p.0)
            (rw (e, lease_campaign_cells) at done)))
  ]
    where
      raised : (x : Error) → ◌≡◌ {A = Result (List StoreLease)} (err x) (ok leases) → ⊥
      raised x p = cc
