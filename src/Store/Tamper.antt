-- ===== src/Store/Tamper.antt =====
-- What the hash chain that `reconcile_campaign_store` (src/pelicanbench/campaign_store.py) replays
-- says of a journal.
use pelican_bench.Base.{
  ℕ, String, ◌≡◌, ◌≢◌, refl, sym, ap, ◌∙◌, Bool, true, false, Option, none, some, List, [], ◌∷◌,
  ◌==◌, eq_iff, eqb, eqb_iff, &&-eq-true, ◌⊎◌, inl, inr, Bool-cases,
}
use pelican_bench.Campaign.{CampaignManifest, eq_of_same_state, same_state, store_allows}
use pelican_bench.Store.Result.{
  Error, ok, >>=-eq-ok, ok-injective, raise_unless_ok, Result-cases, sequence_not_contiguous,
  chain_broken, hash_differs, event_id_differs, replay_state_differs, illegal_transition,
}
use pelican_bench.Store.Time.{Timestamp, same_time}
use pelican_bench.Store.Tables.{
  EventColumns, EventPayload, EventRow, same_columns, same_text?, event_payload_from_row,
}
use pelican_bench.Store.Journal.{Codec, content_hash, event_id_of, last_event_hash}
use pelican_bench.Store.Reconcile.{
  Replay, replay_event, next_round, replay_events, require_replay, check_readable, check_payload,
}
use pelican_bench.Store.Sound.{same_columns_refl}

-- two different payloads with the same hash
pub record Collision (d : Codec) : Type 0 where
  pub one : EventPayload
  pub other : EventPayload
  pub differ : one ≢ other
  pub same_hash : content_hash d one ≡ content_hash d other

abbrev pub columns_of : List EventRow → List EventColumns
columns_of [] = []
columns_of (e ∷ events) = e.columns ∷ columns_of events

pub same_text?-eq : (a b : Option String) → same_text? a b ≡ true → a ≡ b
same_text?-eq none none h = refl
same_text?-eq none (some b) h = cc
same_text?-eq (some a) none h = cc
same_text?-eq (some a) (some b) h = ap (λ (x : String). some x) ((eq_iff a b).0 h)

same_time-eq : (a b : Timestamp) → same_time a b ≡ true → a ≡ b
same_time-eq (Timestamp.utc a) (Timestamp.utc b) h =
    ap (λ (x : ℕ). Timestamp.utc x) ((eqb_iff a b).0 h)
same_time-eq (Timestamp.utc a) (Timestamp.no_zone b) h = cc
same_time-eq (Timestamp.utc a) (Timestamp.unreadable b) h = cc
same_time-eq (Timestamp.no_zone a) (Timestamp.utc b) h = cc
same_time-eq (Timestamp.no_zone a) (Timestamp.no_zone b) h =
    ap (λ (x : ℕ). Timestamp.no_zone x) ((eqb_iff a b).0 h)
same_time-eq (Timestamp.no_zone a) (Timestamp.unreadable b) h = cc
same_time-eq (Timestamp.unreadable a) (Timestamp.utc b) h = cc
same_time-eq (Timestamp.unreadable a) (Timestamp.no_zone b) h = cc
same_time-eq (Timestamp.unreadable a) (Timestamp.unreadable b) h =
    ap (λ (x : String). Timestamp.unreadable x) ((eq_iff a b).0 h)

same_columns-eq : (a b : EventColumns) → same_columns a b ≡ true → a ≡ b
unfolding same_columns
same_columns-eq a b h =
    let (h13, e13) = &&-eq-true _ _ h in
    let (h12, e12) = &&-eq-true _ _ h13 in
    let (h11, e11) = &&-eq-true _ _ h12 in
    let (h10, e10) = &&-eq-true _ _ h11 in
    let (h9, e9) = &&-eq-true _ _ h10 in
    let (h8, e8) = &&-eq-true _ _ h9 in
    let (h7, e7) = &&-eq-true _ _ h8 in
    let (h6, e6) = &&-eq-true _ _ h7 in
    let (h5, e5) = &&-eq-true _ _ h6 in
    let (h4, e4) = &&-eq-true _ _ h5 in
    let (h3, e3) = &&-eq-true _ _ h4 in
    let (h2, e2) = &&-eq-true _ _ h3 in
    let (h1, e1) = &&-eq-true _ _ h2 in
    let p0 : a.sequence ≡ b.sequence = (eqb_iff _ _).0 h1 in
    let p1 : a.campaign_id ≡ b.campaign_id = (eq_iff _ _).0 e1 in
    let p2 : a.cell_id ≡ b.cell_id = (eq_iff _ _).0 e2 in
    let p3 : a.previous_state ≡ b.previous_state = eq_of_same_state _ _ e3 in
    let p4 : a.new_state ≡ b.new_state = eq_of_same_state _ _ e4 in
    let p5 : a.occurred_at ≡ b.occurred_at = same_time-eq _ _ e5 in
    let p6 : a.worker_id ≡ b.worker_id = same_text?-eq _ _ e6 in
    let p7 : a.lease_token ≡ b.lease_token = same_text?-eq _ _ e7 in
    let p8 : a.attempt ≡ b.attempt = (eqb_iff _ _).0 e8 in
    let p9 : a.reason ≡ b.reason = (eq_iff _ _).0 e9 in
    let p10 : a.estimated_cost ≡ b.estimated_cost = (eqb_iff _ _).0 e10 in
    let p11 : a.actual_cost ≡ b.actual_cost = (eqb_iff _ _).0 e11 in
    let p12 : a.artifact_id ≡ b.artifact_id = same_text?-eq _ _ e12 in
    let p13 : a.previous_event_hash ≡ b.previous_event_hash = same_text?-eq _ _ e13 in
    λ i. record {
      sequence = p0 i;
      campaign_id = p1 i;
      cell_id = p2 i;
      previous_state = p3 i;
      new_state = p4 i;
      occurred_at = p5 i;
      worker_id = p6 i;
      lease_token = p7 i;
      attempt = p8 i;
      reason = p9 i;
      estimated_cost = p10 i;
      actual_cost = p11 i;
      artifact_id = p12 i;
      previous_event_hash = p13 i;
    }

module _ (d : Codec) where
  -- what a round of the replay has found out where it raises nothing
  record Accepted (v : Replay) (row : EventRow) (v' : Replay) : Type 0 where
    previous : row.columns.previous_event_hash ≡ v.previous_hash
    hashed : row.event_hash ≡ content_hash d (event_payload_from_row row)
    head : v'.previous_hash ≡ some row.event_hash

  replay_event-Accepted :
      (v : Replay) (row : EventRow) (v' : Replay) → replay_event d v row ≡ ok v' → Accepted v row v'
  unfolding replay_event
  replay_event-Accepted v row v' h =
      let (_, _, h₁) = >>=-eq-ok (check_readable row.payload_json) _ h in
      let hash = content_hash d (event_payload_from_row row) in
      let (_, h₂) =
        raise_unless_ok (eqb row.columns.sequence v.expected_sequence) sequence_not_contiguous _
          h₁ in
      let (previous, h₃) =
        raise_unless_ok (same_text? row.columns.previous_event_hash v.previous_hash) chain_broken _
          h₂ in
      let (_, _, h₄) =
        >>=-eq-ok (check_payload row.payload_json (event_payload_from_row row)) _ h₃ in
      let (hashed, h₅) = raise_unless_ok (row.event_hash == hash) hash_differs _ h₄ in
      let (_, h₆) = raise_unless_ok (row.event_id == event_id_of hash) event_id_differs _ h₅ in
      let (c, _, h₇) = >>=-eq-ok (require_replay row.columns.cell_id v.replayed) _ h₆ in
      let (_, h₈) =
        raise_unless_ok (same_state c.state row.columns.previous_state) replay_state_differs _ h₇ in
      let (_, h₉) =
        raise_unless_ok (store_allows row.columns.previous_state row.columns.new_state)
          (illegal_transition row.columns.previous_state row.columns.new_state) _ h₈ in
      record {
        previous = same_text?-eq row.columns.previous_event_hash v.previous_hash previous;
        hashed = (eq_iff row.event_hash (content_hash d (event_payload_from_row row))).0 hashed;
        head = ap (λ (x : Replay). x.previous_hash) (sym (ok-injective h₉));
      }

  module _ (m : CampaignManifest) where
    -- A journal whose replay raises nothing.
    abbrev pub Replays : List EventRow → Type 0
    Replays events = (replay_events d m events).1 ≡ none

    round_inversion :
        (row : EventRow) (w : Replay × Option Error)
        → (next_round d row w).1 ≡ none
        → (w.1 ≡ none) × Accepted w.0 row (next_round d row w).0
    unfolding next_round
    round_inversion row (v, some e) h = cc
    round_inversion row (v, none) h = elim (Result-cases (replay_event d v row)) [
      | inl (v', e) ↦ (refl, rw (e, next_round) (replay_event-Accepted v row v' e))
      | inr (x, e) ↦ absurd (raises x (rw (e, next_round) at h))
    ]
      where
        raises : (x : Error) → some x ≡ none → ⊥
        raises x p = cc

    -- where a replay raises nothing, the hash that it has come to is the journal's last
    head_of_replay :
        (events : List EventRow)
        → Replays events
        → (replay_events d m events).0.previous_hash ≡ last_event_hash events
    unfolding replay_events
    head_of_replay [] h = refl
    head_of_replay (row ∷ rows) h = (round_inversion row (replay_events d m rows) h).1.head

    same_head :
        (row row' : EventRow) (v v' : Replay) {w w' : Replay}
        → Accepted v row w
        → Accepted v' row' w'
        → row.event_hash ≡ row'.event_hash
        → Collision d ⊎ (row.columns ≡ row'.columns)
    same_head row row' v v' a a' same = elim (Bool-cases (same_columns row.columns row'.columns)) [
      | inl e ↦ inr (same_columns-eq row.columns row'.columns e)
      | inr e ↦ inl (record {
        one = event_payload_from_row row;
        other = event_payload_from_row row';
        differ = λ p. differs e (ap (λ (x : EventPayload). x.columns) p);
        same_hash = sym a.hashed ∙ same ∙ a'.hashed;
      })
    ]
      where
        differs : same_columns row.columns row'.columns ≡ false → row.columns ≡ row'.columns → ⊥
        differs e p = clash (same_columns_refl row'.columns) (rw p at e)
          where
            clash : {b : Bool} → b ≡ true → b ≡ false → ⊥
            clash p q = cc

    -- If two journals both replay without an error and have the same last hash, then all their events
    -- agree in every column, or two different payloads have been found that have the same hash.
    pub same_hash-same_events :
        (events events' : List EventRow)
        → Replays events
        → Replays events'
        → last_event_hash events ≡ last_event_hash events'
        → Collision d ⊎ (columns_of events ≡ columns_of events')
    unfolding replay_events
    same_hash-same_events [] [] h h' same = inr refl
    same_hash-same_events [] (row ∷ rows) h h' same = cc
    same_hash-same_events (row ∷ rows) [] h h' same = cc
    same_hash-same_events (row ∷ rows) (row' ∷ rows') h h' same =
        let (before, a) = round_inversion row (replay_events d m rows) h in
        let (before', a') = round_inversion row' (replay_events d m rows') h' in
        let head : row.event_hash ≡ row'.event_hash = some_text same in
        elim (same_head row row' _ _ a a' head) [
          | inl c ↦ inl c
          | inr e ↦
              let link : last_event_hash rows ≡ last_event_hash rows' =
                sym (head_of_replay rows before)
                ∙ sym a.previous
                ∙ ap (λ (x : EventColumns). x.previous_event_hash) e
                ∙ a'.previous
                ∙ head_of_replay rows' before' in
              elim (same_hash-same_events rows rows' before before' link) [
                | inl c ↦ inl c
                | inr rest ↦ inr (λ i. e i ∷ rest i)
              ]
        ]
      where
        some_text : {a b : String} → some a ≡ some b → a ≡ b
        some_text p = cc
