-- ===== src/Store/Loops.antt =====
-- A rule for the loop of `_reclaim_expired_in_transaction` (src/pelicanbench/campaign_store.py):
-- what every round keeps holds after the loop. The child has the rule for the leasing loop.
pub mod Leasing
use pelican_bench.Base.{
  ℕ, ◌+◌, String, ◌≡◌, refl, sym, subst, Bool, true, false, Option, none, some, List, [], ◌∷◌, ◌++◌,
  arith, ltb, leb, ◌==◌, ◌||◌, ◌⊎◌, inl, inr, Bool-cases, Option-cases,
}
use pelican_bench.Base.Int.{ℤ, pos, ◌+ℤ◌, ltb_ℤ}
use pelican_bench.Base.Lists.{All, length}
use pelican_bench.Campaign.{CampaignManifest, leased, ready}
use pelican_bench.Store.Result.{Result, ok, err, ◌>>=◌, >>=-eq-ok, ok-pair}
use pelican_bench.Store.Time.{Timestamp}
use pelican_bench.Store.Tables.{Store, CellRow, EventRow, find_cell, update_cell}
use pelican_bench.Store.Journal.{Codec, insert_event}
use pelican_bench.Store.Queries.{parse_column}
use pelican_bench.Store.Cells.{IsSnapshot, IsSnapshot-update, IsSnapshot-tail}
use pelican_bench.Store.Reclaim.{free_row, expiry_draft, reclaim_row, reclaim_rows}
use pelican_bench.Store.Sound.{Inserted, insert_event_ok}

abbrev pub freed : Timestamp → CellRow → Store → Store
freed now row s = record s { cells = update_cell row.cell_id (free_row now) s.cells }

-- the lease of a row has ended
pub record Ended (now_value : ℕ) (row : CellRow) : Type 0 where
  pub expiry : ℕ
  pub expires : parse_column row.lease_expires_at ≡ ok expiry
  pub over : ltb now_value expiry ≡ false

module _ (d : Codec) (m : CampaignManifest) (now : Timestamp) (now_value : ℕ) where
  -- A round leaves the store as it is, where the lease still runs, or it writes an event and frees
  -- the cell.
  pub data ReclaimRound (row : CellRow) (s s' : Store) : Type 0 where
    keep :
        s' ≡ s
        → (t : ℕ) → parse_column row.lease_expires_at ≡ ok t
        → ltb now_value t ≡ true
        → ReclaimRound row s s'
    free :
        (event : EventRow) (s₁ : Store)
        → insert_event d m (expiry_draft now row) s ≡ ok (event, s₁)
        → s' ≡ freed now row s₁
        → (t : ℕ) → parse_column row.lease_expires_at ≡ ok t
        → ltb now_value t ≡ false
        → ReclaimRound row s s'

  pub reclaim_row_ok :
      (row : CellRow) (s : Store) {events : List EventRow} {s' : Store}
      → reclaim_row d m now now_value row s ≡ ok (events, s')
      → ReclaimRound row s s'
  unfolding reclaim_row
  reclaim_row_ok row s h =
      let (t, at, rest) = >>=-eq-ok (parse_column row.lease_expires_at) _ h in
      elim (Bool-cases (ltb now_value t)) [
        | inl e ↦ keep (sym (ok-pair (rw e at rest)).1) t at e
        | inr e ↦
            let ((event, s₁), done, end) =
              >>=-eq-ok (insert_event d m (expiry_draft now row) s) _ (rw e at rest) in
            free event s₁ done (sym (ok-pair end).1) t at e
      ]

  module _ (P : Store → Type 0)
      (step : (row : CellRow) (s s₁ : Store) (event : EventRow)
        → P s
        → find_cell row.cell_id s.cells ≡ some row
        → row.state ≡ leased
        → Ended now_value row
        → insert_event d m (expiry_draft now row) s ≡ ok (event, s₁)
        → P (freed now row s₁)) where
    after_round :
        (row : CellRow) (rows : List CellRow) (s s₂ : Store)
        → P s
        → IsSnapshot (row ∷ rows) s.cells
        → row.state ≡ leased
        → ReclaimRound row s s₂
        → P s₂ × IsSnapshot rows s₂.cells
    after_round row rows s s₂ p snap live (keep same _ _ _) =
        rw same (p, IsSnapshot-tail row rows s.cells snap)
    after_round row rows s s₂ p snap live (free event s₁ done same t at over) =
        let i = insert_event_ok d m (expiry_draft now row) s done in
        rw same (
          step row s s₁ event p snap.found.0 live (record { expiry = t; expires = at; over = over })
              done,
          rw i.after (IsSnapshot-update row rows s.cells (free_row now) (λ r. refl) snap),
        )

    pub reclaim_rows_induction :
        (rows : List CellRow) (s : Store) {events : List EventRow} {s' : Store}
        → P s
        → IsSnapshot rows s.cells
        → All (λ (r : CellRow). r.state ≡ leased) rows
        → reclaim_rows d m now now_value rows s ≡ ok (events, s')
        → P s'
    unfolding reclaim_rows
    reclaim_rows_induction [] s p snap live h = subst P (ok-pair h).1 p
    reclaim_rows_induction (row ∷ rows) s p snap live h =
        let ((_, s₂), first, rest) = >>=-eq-ok (reclaim_row d m now now_value row s) _ h in
        let ((_, s₃), more, end) = >>=-eq-ok (reclaim_rows d m now now_value rows s₂) _ rest in
        let (p₂, snap₂) = after_round row rows s s₂ p snap live.0 (reclaim_row_ok row s first) in
        subst P (ok-pair end).1 (reclaim_rows_induction rows s₂ p₂ snap₂ live.1 more)
