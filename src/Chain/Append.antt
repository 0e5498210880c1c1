-- ===== src/Chain/Append.antt =====
-- That `append_campaign_event` and `replay_campaign_events` of src/pelicanbench/campaign.py agree.
use pelican_bench.Base.{
  ◌+◌, String, ◌≡◌, refl, sym, ap, subst, ◌∙◌, true, false, Option, none, some, List, [], ◌∷◌, ◌++◌,
  arith, ◌==◌, eq_refl, eqb,
}
use pelican_bench.Base.Int.{pos, ltb_ℤ}
use pelican_bench.Base.Lists.{length}
use pelican_bench.Base.Dict.{get}
use pelican_bench.Base.Text.{is_blank}
use pelican_bench.Campaign.{CampaignManifest, CellState, same_state, same_state_refl, chain_allows}
use pelican_bench.Store.Result.{
  ok, >>=-eq-ok, ok-injective, raise_if_ok, raise_unless_ok, sequence_not_contiguous, chain_broken,
  replay_state_differs, illegal_transition, negative_cost, hash_differs, reason_required,
  artifact_required,
}
use pelican_bench.Store.Tables.{same_text?}
use pelican_bench.Store.Sound.{same_text?-refl, eqb_refl}
use pelican_bench.Chain.Events.{
  CampaignEvent, ChainPayload, ChainReplay, chain_start, state_of, next_replay, last_hash,
  lacks_artifact, EventRequest, payload_of, event_of, replay_chain_event, replay_from,
  replay_campaign_events, append_campaign_event,
}

pub state_of_ok :
    (k : String) (states : List (String × CellState)) {c : CellState}
    → state_of k states ≡ ok c
    → get k states ≡ some c
state_of_ok k states h = ground arith

state_of_known :
    (k : String) (states : List (String × CellState)) (c : CellState)
    → get k states ≡ some c
    → state_of k states ≡ ok c
state_of_known k states c h = rw (h, state_of) refl

-- the events counted, and the last hash, from what a replay had before them
abbrev hash_after : Option String → List CampaignEvent → Option String
hash_after start [] = start
hash_after start (e ∷ events) = hash_after (some e.event_hash) events

pub last_hash-after : (events : List CampaignEvent) → hash_after none events ≡ last_hash events
unfolding last_hash
last_hash-after [] = refl
last_hash-after (e ∷ []) = refl
last_hash-after (e ∷ e' ∷ events) = last_hash-after (e' ∷ events)

module _ (hash : ChainPayload → String) where
  replay_chain_event_ok :
      (v : ChainReplay) (e : CampaignEvent) {v' : ChainReplay}
      → replay_chain_event hash v e ≡ ok v'
      → v' ≡ next_replay e v
  unfolding replay_chain_event
  replay_chain_event_ok v e h =
      let (_, h₁) =
        raise_unless_ok (eqb e.payload.sequence v.expected_sequence) sequence_not_contiguous _ h in
      let (_, h₂) =
        raise_unless_ok (same_text? e.payload.previous_event_hash v.previous_hash) chain_broken _
          h₁ in
      let (c, _, h₃) = >>=-eq-ok (state_of e.payload.cell_id v.states) _ h₂ in
      let (_, h₄) =
        raise_unless_ok (same_state c e.payload.previous_state) replay_state_differs _ h₃ in
      let (_, h₅) =
        raise_unless_ok (chain_allows c e.payload.new_state)
          (illegal_transition c e.payload.new_state) _ h₄ in
      let (_, h₆) = raise_if_ok (ltb_ℤ e.payload.cost (pos 0)) negative_cost _ h₅ in
      let (_, h₇) = raise_unless_ok (e.event_hash == hash e.payload) hash_differs _ h₆ in
      sym (ok-injective h₇)

  pub replay_from_ends :
      (v : ChainReplay) (events : List CampaignEvent) {v' : ChainReplay}
      → replay_from hash v events ≡ ok v'
      → (v'.expected_sequence ≡ length events + v.expected_sequence)
        × (v'.previous_hash ≡ hash_after v.previous_hash events)
  unfolding replay_from
  replay_from_ends v [] h = rw (ok-injective (sym h)) (omega arith, refl)
  replay_from_ends v (e ∷ events) h =
      let (w, first, rest) = >>=-eq-ok (replay_chain_event hash v e) _ h in
      let (n, t) = replay_from_ends w events rest in
      let step = replay_chain_event_ok v e first in
      (
        omega (arith, n, ap (λ (x : ChainReplay). x.expected_sequence) step),
        t ∙ ap (λ (x : ChainReplay). hash_after x.previous_hash events) step,
      )

  -- a replay goes on where an earlier one has ended
  replay_from-++ :
      (v w : ChainReplay) (events more : List CampaignEvent)
      → replay_from hash v events ≡ ok w
      → replay_from hash v (events ++ more) ≡ replay_from hash w more
  unfolding replay_from
  replay_from-++ v w [] more h = rw (ok-injective h) refl
  replay_from-++ v w (e ∷ events) more h =
      let (u, first, rest) = >>=-eq-ok (replay_chain_event hash v e) _ h in
      rw (first, replay_from) (replay_from-++ u w events more rest)

  -- What the append accepts: the cell is known, the transition is allowed, the cost is not negative,
  -- the reason is not blank, and a success has an artifact.
  pub record Acceptable (q : EventRequest) (v : ChainReplay) (previous_state : CellState)
      : Type 0 where
    pub known : get q.cell_id v.states ≡ some previous_state
    pub allowed : chain_allows previous_state q.new_state ≡ true
    pub cost : ltb_ℤ q.cost (pos 0) ≡ false
    pub reason : is_blank q.reason ≡ false
    pub artifact : lacks_artifact q.new_state q.artifact_id ≡ false

  abbrev pub appended : EventRequest → CellState → List CampaignEvent → List CampaignEvent
  appended q previous_state events =
      events ++ event_of hash (payload_of q previous_state events) ∷ []

  -- the new event passes every test of the replay
  accepted_event :
      (q : EventRequest) (v : ChainReplay) (previous_state : CellState)
      (events : List CampaignEvent)
      → Acceptable q v previous_state
      → v.expected_sequence ≡ length events
      → v.previous_hash ≡ last_hash events
      → replay_chain_event hash v (event_of hash (payload_of q previous_state events))
        ≡ ok (next_replay (event_of hash (payload_of q previous_state events)) v)
  unfolding replay_chain_event
  accepted_event q v p events a n t =
      let known : state_of q.cell_id v.states ≡ ok p =
        state_of_known q.cell_id v.states p a.known in
      rw
        (
          n,
          t,
          eqb_refl (length events),
          same_text?-refl (last_hash events),
          known,
          same_state_refl p,
          a.allowed,
          a.cost,
          eq_refl (hash (payload_of q p events)),
        )
        refl

  module _ (m : CampaignManifest) (q : EventRequest) (events : List CampaignEvent) where
    -- How an append that returned went.
    pub record Appended (events' : List CampaignEvent) : Type 0 where
      pub before : ChainReplay
      pub previous_state : CellState
      pub replayed : replay_campaign_events hash m events ≡ ok before
      pub acceptable : Acceptable q before previous_state
      pub result : events' ≡ appended q previous_state events
      pub after :
          replay_campaign_events hash m events'
          ≡ ok (next_replay (event_of hash (payload_of q previous_state events)) before)

    appended-replays :
        (v : ChainReplay) (p : CellState)
        → replay_campaign_events hash m events ≡ ok v
        → Acceptable q v p
        → replay_campaign_events hash m (appended q p events)
          ≡ ok (next_replay (event_of hash (payload_of q p events)) v)
    unfolding replay_campaign_events replay_from
    appended-replays v p replayed a =
        let (n, t) = replay_from_ends (chain_start m) events replayed in
        let e = event_of hash (payload_of q p events) in
        replay_from-++ (chain_start m) v events (e ∷ []) replayed
        ∙ rw
            (
              accepted_event q v p events a (omega (arith, n)) (t ∙ last_hash-after events),
              replay_from,
            )
            refl

    -- An append that returns has appended the event of its call to events that replay, as do the result's.
    pub append-Appended :
        (events' : List CampaignEvent)
        → append_campaign_event hash m events q ≡ ok events'
        → Appended events'
    unfolding append_campaign_event
    append-Appended events' h =
        let (v, replayed, h₁) = >>=-eq-ok (replay_campaign_events hash m events) _ h in
        let (p, known, h₂) = >>=-eq-ok (state_of q.cell_id v.states) _ h₁ in
        let (allowed, h₃) =
          raise_unless_ok (chain_allows p q.new_state) (illegal_transition p q.new_state) _ h₂ in
        let (cost, h₄) = raise_if_ok (ltb_ℤ q.cost (pos 0)) negative_cost _ h₃ in
        let (reason, h₅) = raise_if_ok (is_blank q.reason) reason_required _ h₄ in
        let (artifact, h₆) =
          raise_if_ok (lacks_artifact q.new_state q.artifact_id) artifact_required _ h₅ in
        let a : Acceptable q v p = record {
          known = state_of_ok q.cell_id v.states known;
          allowed = allowed;
          cost = cost;
          reason = reason;
          artifact = artifact;
        } in
        let same : appended q p events ≡ events' = ok-injective h₆ in
        record {
          before = v;
          previous_state = p;
          replayed = replayed;
          acceptable = a;
          result = sym same;
          after =
              subst
                (λ (es : List CampaignEvent).
                  replay_campaign_events hash m es
                  ≡ ok (next_replay (event_of hash (payload_of q p events)) v))
                same (appended-replays v p replayed a);
        }

    -- Conversely, where the events replay and the new event is acceptable, the append returns.
    pub Acceptable-append :
        (v : ChainReplay) (p : CellState)
        → replay_campaign_events hash m events ≡ ok v
        → Acceptable q v p
        → append_campaign_event hash m events q ≡ ok (appended q p events)
    unfolding append_campaign_event
    Acceptable-append v p replayed a =
        rw
          (
            replayed,
            state_of_known q.cell_id v.states p a.known,
            a.allowed,
            a.cost,
            a.reason,
            a.artifact,
          )
          refl
