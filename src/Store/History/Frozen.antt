-- ===== src/Store/History/Frozen.antt =====
-- Cells that have succeeded, that are quarantined or cancelled: no operation of
-- src/pelicanbench/campaign_store.py writes to them.
use pelican_bench.Base.{
  String, ◌≡◌, refl, sym, ap, subst, ◌∙◌, Bool, true, false, some, List, [], ◌∷◌, ◌++◌, arith, ◌==◌,
  eq_iff, Bool-cases, inl, inr,
}
use pelican_bench.Campaign.{
  CampaignManifest, CellState, succeeded, quarantined, cancelled, store_allows,
}
use pelican_bench.Store.Tables.{Store, CellRow, EventRow, find_cell}
use pelican_bench.Store.Journal.{Codec}
use pelican_bench.Store.Cells.{find-update_ne}
use pelican_bench.Store.Sound.{insert_event_ok}
use pelican_bench.Store.Sound.Writes.{Write, write, Writes, start, more}

-- the terminal states that no transition leaves
abbrev pub is_final : CellState → Bool
is_final succeeded = true
is_final quarantined = true
is_final cancelled = true
is_final _ = false

-- `_ALLOWED_STORE_TRANSITIONS` has no way out of them.
final_allows_nothing : (a b : CellState) → is_final a ≡ true → store_allows a b ≡ false
final_allows_nothing a b h = ground arith

some_same : {a b : CellRow} → some a ≡ some b → a ≡ b
some_same p = cc

clash : (a b : CellState) → store_allows a b ≡ true → store_allows a b ≡ false → ⊥
clash a b p q = cc

module _ (d : Codec) (m : CampaignManifest) (k : String) (r : CellRow)
    (final : is_final r.state ≡ true) where
  Write-frozen :
      {s t : Store} → Write d m s t → find_cell k s.cells ≡ some r → find_cell k t.cells ≡ some r
  Write-frozen {s} (write e f r₀ row s' keeps there state follows done) found =
      let i = insert_event_ok d m e s done in
      elim (Bool-cases (k == e.cell_id)) [
        | inl same ↦
            let at : find_cell k s.cells ≡ some r₀ = rw ((eq_iff k e.cell_id).0 same) there in
            let equal : r ≡ r₀ = some_same (sym found ∙ at) in
            absurd (
              clash e.previous_state e.new_state i.allowed (
                final_allows_nothing e.previous_state e.new_state (
                  subst (λ (x : CellState). is_final x ≡ true)
                    (ap (λ (x : CellRow). x.state) equal ∙ state) final)))
        | inr differ ↦ rw i.after (find-update_ne e.cell_id k f keeps s.cells differ ∙ found)
      ]

  pub Writes-frozen :
      {s t : Store} → Writes d m s t → find_cell k s.cells ≡ some r → find_cell k t.cells ≡ some r
  Writes-frozen start found = found
  Writes-frozen (more before last) found = Write-frozen last (Writes-frozen before found)

module _ (d : Codec) (m : CampaignManifest) where
  Write-journal : {s t : Store} → Write d m s t → (row : EventRow) × (t.events ≡ row ∷ s.events)
  Write-journal {s} (write e f r row s' keeps there state follows done) =
      (row, ap (λ (x : Store). x.events) (insert_event_ok d m e s done).after)

  pub Writes-journal :
      {s t : Store} → Writes d m s t → (newer : List EventRow) × (t.events ≡ newer ++ s.events)
  Writes-journal start = ([], refl)
  Writes-journal (more before last) =
      let (newer, e) = Writes-journal before in
      let (row, e') = Write-journal last in
      (row ∷ newer, e' ∙ ap (λ (x : List EventRow). row ∷ x) e)
