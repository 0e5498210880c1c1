-- ===== src/Store/History/Anew.antt =====
-- How a cell of src/pelicanbench/campaign_store.py that is not leased comes to be leased: by an event
-- that takes it from ready to leased.
use pelican_bench.Base.{
  String, ◌≡◌, refl, sym, ap, ◌∙◌, true, false, some, List, ◌∷◌, ◌++◌, ◌==◌, arith, eq_iff,
  Bool-cases, inl, inr,
}
use pelican_bench.Base.Lists.{Has}
use pelican_bench.Campaign.{
  CampaignManifest, CellState, ready, leased, store_allows, same_state, eq_of_same_state,
}
use pelican_bench.Store.Tables.{Store, CellRow, EventRow, find_cell, update_cell}
use pelican_bench.Store.Journal.{Codec, EventDraft, event_row, event_columns}
use pelican_bench.Store.Cells.{find-update_self, find-update_ne}
use pelican_bench.Store.Sound.{insert_event_ok}
use pelican_bench.Store.Sound.Writes.{write, Writes, start, more}
use pelican_bench.Store.History.Frozen.{Writes-journal}

-- Among the events that `t` has and `s` has not, one takes the cell from ready to leased.
pub record LeasedAnew (k : String) (s t : Store) : Type 0 where
  pub newer : List EventRow
  pub grown : t.events ≡ newer ++ s.events
  pub event : EventRow
  pub has : Has event newer
  pub cell : event.cell_id ≡ k
  pub before : event.previous_state ≡ ready
  pub after : event.new_state ≡ leased

later_LeasedAnew :
    (k : String) (s u t : Store) (row : EventRow)
    → t.events ≡ row ∷ u.events
    → LeasedAnew k s u
    → LeasedAnew k s t
later_LeasedAnew k s u t row grown h = record {
  newer = row ∷ h.newer;
  grown = grown ∙ ap (λ (x : List EventRow). row ∷ x) h.grown;
  event = h.event;
  has = inr h.has;
  cell = h.cell;
  before = h.before;
  after = h.after;
}

only_ready :
    (a : CellState) → same_state a leased ≡ false → store_allows a leased ≡ true → a ≡ ready
only_ready a other allowed = ground arith

some_same : {a b : CellRow} → some a ≡ some b → a ≡ b
some_same p = cc

module _ (d : Codec) (m : CampaignManifest) (k : String) where
  lease_event :
      (s u t : Store) (row : EventRow) (e : EventDraft)
      → Writes d m s u
      → t.events ≡ row ∷ u.events
      → row ≡ event_row d m e u.events
      → e.cell_id ≡ k
      → e.previous_state ≡ ready
      → e.new_state ≡ leased
      → LeasedAnew k s t
  unfolding event_row event_columns
  lease_event s u t row e before grown made cell from to =
      let (newer, old) = Writes-journal d m before in
      record {
        newer = row ∷ newer;
        grown = grown ∙ ap (λ (x : List EventRow). row ∷ x) old;
        event = row;
        has = inl refl;
        cell = ap (λ (x : EventRow). x.cell_id) made ∙ cell;
        before = ap (λ (x : EventRow). x.previous_state) made ∙ from;
        after = ap (λ (x : EventRow). x.new_state) made ∙ to;
      }

  pub Writes-LeasedAnew :
      {s t : Store} (r : CellRow)
      → Writes d m s t
      → ((x : CellRow) → find_cell k s.cells ≡ some x → x.state ≡ leased → ⊥)
      → find_cell k t.cells ≡ some r
      → r.state ≡ leased
      → LeasedAnew k s t
  Writes-LeasedAnew r start free found live = absurd (free r found live)
  Writes-LeasedAnew {s} {t} r
        (more {t = u} before (write e f r₀ row s' keeps there state follows done)) free found live =
      let i = insert_event_ok d m e u done in
      let grown : s'.events ≡ row ∷ u.events = ap (λ (x : Store). x.events) i.after in
      elim (Bool-cases (k == e.cell_id)) [
        | inr differ ↦ later_LeasedAnew k s u t row grown (
            Writes-LeasedAnew r before free
              (sym (find-update_ne e.cell_id k f keeps u.cells differ) ∙ (rw i.after at found))
              live)
        | inl same ↦
            let key = (eq_iff k e.cell_id).0 same in
            let equal : f r₀ ≡ r = some_same (
              sym (find-update_self e.cell_id f keeps r₀ u.cells there)
              ∙ ap (λ (x : String). find_cell x (update_cell e.cell_id f u.cells)) (sym key)
              ∙ (rw i.after at found)) in
            let to : e.new_state ≡ leased =
              sym follows.to_state ∙ ap (λ (x : CellRow). x.state) equal ∙ live in
            elim (Bool-cases (same_state r₀.state leased)) [
              | inl held ↦ later_LeasedAnew k s u t row grown (
                  Writes-LeasedAnew r₀ before free
                    (ap (λ (x : String). find_cell x u.cells) key ∙ there)
                    (eq_of_same_state r₀.state leased held))
              | inr idle ↦
                  lease_event s u t row e before grown i.event (sym key)
                    (sym state ∙ only_ready r₀.state idle (rw (state, sym to) i.allowed)) to
            ]
      ]
