-- ===== src/Store/Loops/Leasing.antt =====
-- A rule for the loop of `lease_campaign_cells` (src/pelicanbench/campaign_store.py): what every
-- grant keeps holds after the loop.
use pelican_bench.Base.{
  ℕ, suc, ◌+◌, String, ◌≡◌, sym, subst, arith, false, some, List, [], ◌∷◌, ◌++◌, if◌then◌else◌, leb,
  ◌==◌, ◌||◌, inl, inr, Bool-cases, Option-cases,
}
use pelican_bench.Base.Int.{ℤ, pos, ◌+ℤ◌, ltb_ℤ}
use pelican_bench.Base.Lists.{All, length}
use pelican_bench.Campaign.{CampaignManifest, ready}
use pelican_bench.Store.Result.{ok, >>=-eq-ok, ok-injective}
use pelican_bench.Store.Time.{Timestamp}
use pelican_bench.Store.Tables.{Store, CellRow, EventRow, find_cell, update_cell}
use pelican_bench.Store.Journal.{Codec, insert_event}
use pelican_bench.Store.Cells.{IsSnapshot, IsSnapshot-update, IsSnapshot-tail, KeepsKey}
use pelican_bench.Store.Lease.{
  LeaseRequest, Round, lease_row, lease_rows, grant, lease_draft, leased_row, lease_of,
  new_lease_token,
}
use pelican_bench.Store.Sound.{insert_event_ok}

-- the variables after a grant, from the store that `insert_event` returned
abbrev pub granted : LeaseRequest → Timestamp → CellRow → ℤ → String → ℕ → Store → Round → Round
granted q expires_at row estimate token calls s l = record {
  store = record s {
    cells = update_cell row.cell_id (leased_row q token (row.attempt_count + 1) expires_at) s.cells;
  };
  leases = l.leases ++ lease_of q token estimate expires_at row ∷ [];
  active = λ model. if row.model_id == model then suc (l.active model) else l.active model;
  reserved = l.reserved +ℤ estimate;
  calls = calls;
}

pub leased_row-KeepsKey :
    (q : LeaseRequest) (token : String) (attempt : ℕ) (expires_at : Timestamp)
    → KeepsKey (leased_row q token attempt expires_at)
leased_row-KeepsKey q token attempt expires_at r = ground arith

module _ (d : Codec) (m : CampaignManifest) (q : LeaseRequest) (budget : ℤ) (spent : ℕ)
    (expires_at : Timestamp) where
  -- What the loop has found out where it grants a lease: there is room under the limit and the cap,
  -- the estimate is known and fits the budget, the token is new, and the event was written.
  pub record Grants (row : CellRow) (l : Round) (estimate : ℤ) (token : String) (calls : ℕ)
      (event : EventRow) (s : Store) : Type 0 where
    pub room :
        (leb q.limit (length l.leases) || leb m.max_parallel_per_model (l.active row.model_id))
        ≡ false
    pub priced : row.estimated_cost ≡ some estimate
    pub fits : ltb_ℤ budget (pos spent +ℤ l.reserved +ℤ estimate) ≡ false
    pub taken : new_lease_token q.factory l.store l.calls ≡ ok (token, calls)
    pub done : insert_event d m (lease_draft q token estimate row) l.store ≡ ok (event, s)

  pub data LeaseRound (row : CellRow) (l l' : Round) : Type 0 where
    skip : l' ≡ l → LeaseRound row l l'
    give :
        (estimate : ℤ) (token : String) (calls : ℕ) (event : EventRow) (s : Store)
        → Grants row l estimate token calls event s
        → l' ≡ granted q expires_at row estimate token calls s l
        → LeaseRound row l l'

  pub lease_row_ok :
      (row : CellRow) (l : Round) {l' : Round}
      → lease_row d m q budget spent expires_at row l ≡ ok l'
      → LeaseRound row l l'
  unfolding lease_row grant
  lease_row_ok row l h =
      elim (Bool-cases
        (leb q.limit (length l.leases) || leb m.max_parallel_per_model (l.active row.model_id))) [
          | inl full ↦ skip (sym (ok-injective (rw full at h)))
          | inr room ↦ elim (Option-cases row.estimated_cost) [
            | inl unknown ↦ skip (sym (ok-injective (rw unknown at (rw room at h))))
            | inr (estimate, priced) ↦
                elim (Bool-cases (ltb_ℤ budget (pos spent +ℤ l.reserved +ℤ estimate))) [
                  | inl over ↦ skip (sym (ok-injective (rw over at (rw priced at (rw room at h)))))
                  | inr fits ↦
                      let h' = rw fits at (rw priced at (rw room at h)) in
                      let ((token, calls), taken, rest) =
                        >>=-eq-ok (new_lease_token q.factory l.store l.calls) _ h' in
                      let ((event, s), done, end) =
                        >>=-eq-ok (insert_event d m (lease_draft q token estimate row) l.store) _
                          rest in
                      give estimate token calls event s
                        (record {
                          room = room;
                          priced = priced;
                          fits = fits;
                          taken = taken;
                          done = done;
                        })
                        (sym (ok-injective end))
                ]
          ]
        ]

  module _ (P : Round → Type 0)
      (step : (row : CellRow) (l : Round) (estimate : ℤ) (token : String) (calls : ℕ)
          (event : EventRow) (s : Store)
        → P l
        → find_cell row.cell_id l.store.cells ≡ some row
        → row.state ≡ ready
        → Grants row l estimate token calls event s
        → P (granted q expires_at row estimate token calls s l)) where
    after_round :
        (row : CellRow) (rows : List CellRow) (l l' : Round)
        → P l
        → IsSnapshot (row ∷ rows) l.store.cells
        → row.state ≡ ready
        → LeaseRound row l l'
        → P l' × IsSnapshot rows l'.store.cells
    after_round row rows l l' p snap open_cell (skip same) =
        rw same (p, IsSnapshot-tail row rows l.store.cells snap)
    after_round row rows l l' p snap open_cell (give estimate token calls event s g same) =
        let i = insert_event_ok d m (lease_draft q token estimate row) l.store g.done in
        let f = leased_row q token (row.attempt_count + 1) expires_at in
        rw same (
          step row l estimate token calls event s p snap.found.0 open_cell g,
          rw i.after (
              IsSnapshot-update row rows l.store.cells f
                (leased_row-KeepsKey q token (row.attempt_count + 1) expires_at) snap),
        )

    pub lease_rows_induction :
        (rows : List CellRow) (l : Round) {l' : Round}
        → P l
        → IsSnapshot rows l.store.cells
        → All (λ (r : CellRow). r.state ≡ ready) rows
        → lease_rows d m q budget spent expires_at rows l ≡ ok l'
        → P l'
    unfolding lease_rows
    lease_rows_induction [] l p snap live h = subst P (ok-injective h) p
    lease_rows_induction (row ∷ rows) l p snap live h =
        let (l₂, first, rest) = >>=-eq-ok (lease_row d m q budget spent expires_at row l) _ h in
        let (p₂, snap₂) = after_round row rows l l₂ p snap live.0 (lease_row_ok row l first) in
        lease_rows_induction rows l₂ p₂ snap₂ live.1 rest
