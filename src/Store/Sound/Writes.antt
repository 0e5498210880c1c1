-- ===== src/Store/Sound/Writes.antt =====
-- One event and its UPDATE, as every operation of src/pelicanbench/campaign_store.py makes them,
-- keep the store sound.
use pelican_bench.Base.{suc, ◌≡◌, refl, sym, ap, subst, ◌∙◌, some, ◌∷◌}
use pelican_bench.Base.Int.{pos_part}
use pelican_bench.Campaign.{CampaignManifest}
use pelican_bench.Store.Result.{ok}
use pelican_bench.Store.Money.{round8}
use pelican_bench.Store.Tables.{Store, CellRow, EventRow, find_cell, update_cell}
use pelican_bench.Store.Journal.{
  Codec, EventDraft, insert_event, event_row, event_columns, verify_manifest,
}
use pelican_bench.Store.Reconcile.{Replay, replay_set, next_round, replay_events}
use pelican_bench.Store.Cells.{KeepsKey, update-Unique}
use pelican_bench.Store.Sound.{
  IsSound, Follows, Inserted, insert_event_ok, Tracks-update, find_replay-Tracks, replay-event_row,
}

module _ (d : Codec) (m : CampaignManifest) (e : EventDraft) (f : CellRow → CellRow)
    (keeps : KeepsKey f) where
  abbrev written : Store → Store
  written s = record s {
    cells = update_cell e.cell_id f s.cells;
    events = event_row d m e s.events ∷ s.events;
  }

  abbrev replay_after : Store → Replay → Replay
  replay_after s v = record {
    expected_sequence = suc v.expected_sequence;
    previous_hash = some (event_row d m e s.events).event_hash;
    replayed = replay_set e.cell_id e.new_state (round8 (pos_part e.actual_cost)) v.replayed;
  }

  written-IsSound :
      (s : Store) (r : CellRow) {row : EventRow} {s' : Store}
      → IsSound d m s
      → find_cell e.cell_id s.cells ≡ some r
      → r.state ≡ e.previous_state
      → Follows r (f r) e.new_state (round8 (pos_part e.actual_cost))
      → Inserted d m e s row s'
      → IsSound d m (written s)
  unfolding replay_events next_round event_row event_columns verify_manifest
  written-IsSound s r h found state follows i =
      let (c, at, agrees) = find_replay-Tracks e.cell_id r s.cells h.view.replayed h.tracks found in
      record {
        belongs = h.belongs;
        unique = update-Unique e.cell_id f keeps s.cells h.unique;
        view = replay_after s h.view;
        replays = rw h.replays (
            rw
              (
                replay-event_row d m e s.events h.view c h.sequence h.head at
                    (sym agrees.state ∙ state) i.allowed,
                next_round,
              )
              refl);
        sequence = ap suc h.sequence;
        head = refl;
        tracks =
            Tracks-update e.cell_id f e.new_state (round8 (pos_part e.actual_cost)) r s.cells
              h.view.replayed keeps h.unique found follows h.tracks;
      }

  -- If the event is for the cell's state, and the UPDATE takes the cell to the event's new state and
  -- cost, then a sound store is sound after both.
  pub insert_update-IsSound :
      (s : Store) (r : CellRow) {row : EventRow} {s' : Store}
      → IsSound d m s
      → find_cell e.cell_id s.cells ≡ some r
      → r.state ≡ e.previous_state
      → Follows r (f r) e.new_state (round8 (pos_part e.actual_cost))
      → insert_event d m e s ≡ ok (row, s')
      → IsSound d m (record s' { cells = update_cell e.cell_id f s'.cells })
  insert_update-IsSound s r {row} h found state follows done =
      let i = insert_event_ok d m e s done in
      let same : record s { events = row ∷ s.events }
          ≡ record s { events = event_row d m e s.events ∷ s.events } =
        ap (λ (x : EventRow). record s { events = x ∷ s.events }) i.event in
      subst (λ (t : Store). IsSound d m (record t { cells = update_cell e.cell_id f t.cells }))
        (sym (i.after ∙ same)) (written-IsSound s r h found state follows i)

module _ (d : Codec) (m : CampaignManifest) where
  -- One event and its UPDATE: the event is for the state of a cell that is there, and the UPDATE
  -- takes that cell to the event's new state and cost, with the columns of a lease in order.
  pub data Write (s : Store) : Store → Type 0 where
    write :
        (e : EventDraft) (f : CellRow → CellRow) (r : CellRow) (row : EventRow) (s' : Store)
        → KeepsKey f
        → find_cell e.cell_id s.cells ≡ some r
        → r.state ≡ e.previous_state
        → Follows r (f r) e.new_state (round8 (pos_part e.actual_cost))
        → insert_event d m e s ≡ ok (row, s')
        → Write s (record s' { cells = update_cell e.cell_id f s'.cells })

  pub data Writes (s : Store) : Store → Type 0 where
    start : Writes s s
    more : {t u : Store} → Writes s t → Write t u → Writes s u

  Write-IsSound : {s t : Store} → IsSound d m s → Write s t → IsSound d m t
  Write-IsSound {s} h (write e f r row s' keeps found state follows done) =
      insert_update-IsSound d m e f keeps s r h found state follows done

  pub Writes-IsSound : {s t : Store} → IsSound d m s → Writes s t → IsSound d m t
  Writes-IsSound h start = h
  Writes-IsSound h (more before last) = Write-IsSound (Writes-IsSound h before) last

  pub Writes-append : {s t u : Store} → Writes s t → Writes t u → Writes s u
  Writes-append before start = before
  Writes-append before (more rest last) = more (Writes-append before rest) last
