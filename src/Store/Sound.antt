-- ===== src/Store/Sound.antt =====
-- The consistency of a store of src/pelicanbench/campaign_store.py: its journal replays without an
-- error, to the cells that it holds. The children prove that the operations keep it.
pub mod Writes
pub mod Audit
pub mod Operations
pub mod Holders
pub mod Initial
use pelican_bench.Base.{
  ℕ, ◌+◌, suc, String, ◌≡◌, refl, sym, ap, ◌∙◌, Bool, true, false, not, subst, Option, none, some,
  List, [], ◌∷◌, arith, ◌==◌, eq_iff, eq_refl, eqb, ◌||◌, ◌&&◌, Bool-cases, inl, inr, eqb_iff,
}
use pelican_bench.Base.Int.{pos, ltb_ℤ, pos_part}
use pelican_bench.Base.Text.{is_blank}
use pelican_bench.Campaign.{CampaignManifest, CellState, same_state, same_state_refl, store_allows}
use pelican_bench.Store.Result.{Result, ok, err}
use pelican_bench.Store.Time.{Timestamp, same_time}
use pelican_bench.Store.Money.{round8}
use pelican_bench.Store.Tables.{
  Store, CellRow, EventColumns, EventPayload, EventRow, find_cell, update_cell, same_text?,
  same_columns, same_payload, event_payload_from_row,
}
use pelican_bench.Store.Journal.{
  Codec, EventDraft, insert_event, event_row, event_columns, content_hash, event_id_of,
  next_sequence, last_event_hash, is_recorded, needs_artifact, no_artifact, verify_manifest,
}
use pelican_bench.Store.Reconcile.{
  ReplayCell, Replay, find_replay, replay_set, replay_event, next_round, replay_events,
  lease_is_clean,
}
use pelican_bench.Store.Cells.{Unique, KeepsKey, update_cell_missing, update-Unique, missing-cons}

-- a stored cell and the replay's account of it
pub record Agrees (r : CellRow) (c : ReplayCell) : Type 0 where
  pub key : r.cell_id ≡ c.cell_id
  pub state : r.state ≡ c.state
  pub cost : r.actual_cost ≡ c.cost
  pub clean : lease_is_clean r ≡ true

abbrev pub Tracks : List CellRow → List ReplayCell → Type 0
Tracks [] [] = Unit
Tracks (r ∷ rows) (c ∷ cs) = Agrees r c × Tracks rows cs
Tracks _ _ = ⊥

-- The metadata are the manifest's and the primary key holds; the journal replays, as far as it goes, with the sequence and the hash at
-- which the next event is written; and the cells are what was replayed.
pub record IsSound (d : Codec) (m : CampaignManifest) (s : Store) : Type 0 where
  pub belongs : verify_manifest d m s ≡ ok tt
  pub unique : Unique s.cells
  pub view : Replay
  pub replays : replay_events d m s.events ≡ (view, none)
  pub sequence : view.expected_sequence ≡ next_sequence s.events
  pub head : view.previous_hash ≡ last_event_hash s.events
  pub tracks : Tracks s.cells view.replayed

pub same_text?-refl : (a : Option String) → same_text? a a ≡ true
same_text?-refl none = refl
same_text?-refl (some a) = eq_refl a

same_time_refl : (t : Timestamp) → same_time t t ≡ true
same_time_refl (Timestamp.utc t) = ground arith
same_time_refl (Timestamp.no_zone t) = ground arith
same_time_refl (Timestamp.unreadable t) = eq_refl t

pub eqb_refl : (n : ℕ) → eqb n n ≡ true
eqb_refl n = ground arith

pub same_columns_refl : (a : EventColumns) → same_columns a a ≡ true
unfolding same_columns
same_columns_refl a = simp (eqb_refl, eq_refl, same_time_refl, same_text?-refl)

pub same_payload_refl : (a : EventPayload) → same_payload a a ≡ true
unfolding same_payload
same_payload_refl a = rw (eq_refl a.schema_version, same_columns_refl a.columns)

-- The cell of a stored row is in the replay, and agrees with it.
pub find_replay-Tracks :
    (k : String) (r : CellRow) (rows : List CellRow) (cs : List ReplayCell)
    → Tracks rows cs
    → find_cell k rows ≡ some r
    → (c : ReplayCell) × (find_replay k cs ≡ some c) × Agrees r c
unfolding find_cell find_replay
find_replay-Tracks k r [] cs t h = cc
find_replay-Tracks k r (x ∷ rows) [] t h = absurd t
find_replay-Tracks k r (x ∷ rows) (c ∷ cs) t h = elim (Bool-cases (x.cell_id == k)) [
  | inl e ↦ (c, rw (← t.0.key) (rw e), subst (λ y. Agrees y c) (found (rw e at h)) t.0)
  | inr e ↦ rw (← t.0.key) (rw e (find_replay-Tracks k r rows cs t.1 (rw e at h)))
]
  where
    found : some x ≡ some r → x ≡ r
    found p = cc

replay_set_missing :
    (k : String) (state : CellState) (cost : ℕ) (rows : List CellRow) (cs : List ReplayCell)
    → Tracks rows cs
    → find_cell k rows ≡ none
    → replay_set k state cost cs ≡ cs
unfolding replay_set
replay_set_missing k state cost [] [] t h = refl
replay_set_missing k state cost [] (c ∷ cs) t h = absurd t
replay_set_missing k state cost (x ∷ rows) [] t h = absurd t
replay_set_missing k state cost (x ∷ rows) (c ∷ cs) t h =
    let (ne, rest) = missing-cons k x rows h in
    rw (← t.0.key) (rw ne (rw (replay_set_missing k state cost rows cs t.1 rest)))

-- what an UPDATE of the row `r` has to do to go with an event to `state` that costs `cost`
pub record Follows (r r' : CellRow) (state : CellState) (cost : ℕ) : Type 0 where
  pub to_state : r'.state ≡ state
  pub to_cost : r'.actual_cost ≡ r.actual_cost + cost
  pub clean : lease_is_clean r' ≡ true

Agrees-update :
    (f : CellRow → CellRow) (state : CellState) (cost : ℕ) (r x : CellRow) (c : ReplayCell)
    → KeepsKey f
    → x ≡ r
    → Follows r (f r) state cost
    → Agrees x c
    → Agrees (f x) (record c { state = state; cost = c.cost + cost })
Agrees-update f state cost r x c keeps same g a =
    let h : Follows x (f x) state cost = subst (λ y. Follows y (f y) state cost) (sym same) g in
    record {
      key = keeps x ∙ a.key;
      state = h.to_state;
      cost = h.to_cost ∙ ap (λ n. n + cost) a.cost;
      clean = h.clean;
    }

-- An UPDATE of one cell and the replay of its event go together.
pub Tracks-update :
    (k : String) (f : CellRow → CellRow) (state : CellState) (cost : ℕ) (r : CellRow)
    (rows : List CellRow) (cs : List ReplayCell)
    → KeepsKey f
    → Unique rows
    → find_cell k rows ≡ some r
    → Follows r (f r) state cost
    → Tracks rows cs
    → Tracks (update_cell k f rows) (replay_set k state cost cs)
unfolding find_cell update_cell replay_set
Tracks-update k f state cost r [] cs keeps u h g t = cc
Tracks-update k f state cost r (x ∷ rows) [] keeps u h g t = absurd t
Tracks-update k f state cost r (x ∷ rows) (c ∷ cs) keeps u h g t =
    elim (Bool-cases (x.cell_id == k)) [
      | inl e ↦
          let e' : (c.cell_id == k) ≡ true = rw (← t.0.key) e in
          let gone : find_cell k rows ≡ none = rw (← (eq_iff x.cell_id k).0 e) u.0 in
          rw (e, e')
            (
              Agrees-update f state cost r x c keeps (found (rw e at h)) g t.0,
              rw
                  (
                    update_cell_missing k f rows gone,
                    replay_set_missing k state cost rows cs t.1 gone,
                  )
                  t.1,
            )
      | inr e ↦
          let e' : (c.cell_id == k) ≡ false = rw (← t.0.key) e in
          rw (e, e') (t.0, Tracks-update k f state cost r rows cs keeps u.1 (rw e at h) g t.1)
    ]
  where
    found : some x ≡ some r → x ≡ r
    found p = cc

-- What a call of `insert_event` that returned has checked and done.
pub record Inserted (d : Codec) (m : CampaignManifest) (e : EventDraft) (s : Store) (row : EventRow)
    (s' : Store) : Type 0 where
  pub event : row ≡ event_row d m e s.events
  pub after : s' ≡ record s { events = row ∷ s.events }
  pub allowed : store_allows e.previous_state e.new_state ≡ true
  pub reasoned : is_blank e.reason ≡ false
  pub estimate : ltb_ℤ e.estimated_cost (pos 0) ≡ false
  pub cost : ltb_ℤ e.actual_cost (pos 0) ≡ false
  pub artifact : (needs_artifact e.new_state && no_artifact e.artifact_id) ≡ false
  pub fresh : is_recorded d row s.events ≡ false

pub insert_event_ok :
    (d : Codec) (m : CampaignManifest) (e : EventDraft) (s : Store) {row : EventRow} {s' : Store}
    → insert_event d m e s ≡ ok (row, s')
    → Inserted d m e s row s'
unfolding insert_event
insert_event_ok d m e s h = ground arith

-- The replay accepts the event that `insert_event` writes.
pub replay-event_row :
    (d : Codec) (m : CampaignManifest) (e : EventDraft) (events : List EventRow) (v : Replay)
    (c : ReplayCell)
    → v.expected_sequence ≡ next_sequence events
    → v.previous_hash ≡ last_event_hash events
    → find_replay e.cell_id v.replayed ≡ some c
    → c.state ≡ e.previous_state
    → store_allows e.previous_state e.new_state ≡ true
    → replay_event d v (event_row d m e events)
      ≡ ok (record {
        expected_sequence = suc v.expected_sequence;
        previous_hash = some (event_row d m e events).event_hash;
        replayed = replay_set e.cell_id e.new_state (round8 (pos_part e.actual_cost)) v.replayed;
      })
unfolding replay_event event_row event_columns
replay-event_row d m e events v c seq head found state allowed = ground (
  arith,
  seq,
  head,
  found,
  state,
  allowed,
  eqb_refl (next_sequence events),
  same_text?-refl (last_event_hash events),
  same_payload_refl (event_payload_from_row (event_row d m e events)),
  eq_refl (event_row d m e events).event_hash,
  eq_refl (event_row d m e events).event_id,
  same_state_refl e.previous_state,
)
