-- ===== src/Worker/Matching.antt =====
-- The event of a completion and the record of an execution
-- (src/pelicanbench/campaign_worker.py) name the same things.
use pelican_bench.Base.{
  ℕ, ◌≡◌, refl, sym, ap, subst, ◌∙◌, some, List, arith, leb, Bool-cases, inl, inr,
}
use pelican_bench.Base.Int.{ℤ, pos}
use pelican_bench.Base.Lists.{Has}
use pelican_bench.Campaign.{CampaignManifest}
use pelican_bench.Store.Result.{
  Result, ok, >>=-eq-ok, ok-pair, Result-cases, raise_if_ok, lease_expired,
}
use pelican_bench.Store.Time.{parse_utc}
use pelican_bench.Store.Money.{finite, round8}
use pelican_bench.Store.Tables.{Store, CellRow, EventRow}
use pelican_bench.Store.Journal.{Codec, insert_event, event_row, event_columns, verify_manifest}
use pelican_bench.Store.Queries.{transaction_ok}
use pelican_bench.Store.Holder.{
  owned_row, Completion, is_completion, finite_cost, completion_draft, complete_body,
  complete_campaign_lease,
}
use pelican_bench.Store.Sound.{insert_event_ok}
use pelican_bench.Store.Outcomes.{raised}
use pelican_bench.Worker.Records.{ExecutionPayload}
use pelican_bench.Worker.Settlement.{kept_artifact}

-- what `reconcile_campaign_execution_records` compares
pub record Matches (x : ExecutionPayload) (e : EventRow) : Type 0 where
  pub campaign : e.campaign_id ≡ x.campaign_id
  pub cell : e.cell_id ≡ x.cell_id
  pub worker : e.worker_id ≡ some x.worker_id
  pub token : e.lease_token ≡ some x.lease_token
  pub state : e.new_state ≡ x.terminal_state
  pub reason : e.reason ≡ x.terminal_reason
  pub artifact : e.artifact_id ≡ kept_artifact x.terminal_state x.artifact_id
  pub cost : pos e.actual_cost ≡ x.charged_cost

-- what an event has of the completion that it records
pub record Records (m : CampaignManifest) (q : Completion) (charge : ℕ) (e : EventRow)
    : Type 0 where
  pub campaign : e.campaign_id ≡ m.campaign_id
  pub cell : e.cell_id ≡ q.cell_id
  pub worker : e.worker_id ≡ some q.worker_id
  pub token : e.lease_token ≡ some q.lease_token
  pub state : e.new_state ≡ q.new_state
  pub reason : e.reason ≡ q.reason
  pub artifact : e.artifact_id ≡ q.artifact_id
  pub cost : e.actual_cost ≡ round8 charge

pub finite_cost-pos : (c : ℤ) (n : ℕ) → finite_cost (finite c) ≡ ok n → pos n ≡ c
finite_cost-pos c n h = ground arith

module _ (d : Codec) (m : CampaignManifest) where
  written-Records :
      (q : Completion) (cost : ℕ) (row : CellRow) (events : List EventRow)
      → Records m q cost (event_row d m (completion_draft q cost row) events)
  unfolding event_row event_columns
  written-Records q cost row events = record {
    campaign = refl;
    cell = refl;
    worker = refl;
    token = refl;
    state = refl;
    reason = refl;
    artifact = refl;
    cost = refl;
  }

  complete_body-Records :
      (q : Completion) (cost : ℕ) (s s' : Store) (event : EventRow)
      → complete_body d m q cost s ≡ ok (event, s')
      → Records m q cost event × Has event s'.events
  unfolding complete_body
  complete_body-Records q cost s s' event done =
      let (_, _, h₁) = >>=-eq-ok (verify_manifest d m s) _ done in
      let ((row, expiry), _, h₂) =
        >>=-eq-ok (owned_row q.cell_id q.worker_id q.lease_token s) _ h₁ in
      let (n, _, h₃) = >>=-eq-ok (parse_utc q.now) _ h₂ in
      let (_, h₄) = raise_if_ok (leb expiry n) lease_expired _ h₃ in
      let ((written, s₁), inserted, end) =
        >>=-eq-ok (insert_event d m (completion_draft q cost row) s) _ h₄ in
      let i = insert_event_ok d m (completion_draft q cost row) s inserted in
      let at : Has written s₁.events = rw i.after (inl refl) in
      (
        subst (λ (e : EventRow). Records m q cost e) (sym i.event ∙ (ok-pair end).0)
            (written-Records q cost row s.events),
        subst (λ (x : Store). Has event x.events) (ok-pair end).1
            (subst (λ (e : EventRow). Has e s₁.events) (ok-pair end).0 at),
      )

  -- The event that a completion writes has the completion's fields, and its cost rounded.
  pub complete-Records :
      (q : Completion) (s s' : Store) (event : EventRow)
      → complete_campaign_lease d m q s ≡ (ok event, s')
      → (cost : ℕ) × (finite_cost q.actual_cost ≡ ok cost)
        × Records m q cost event
        × Has event s'.events
  unfolding complete_campaign_lease
  complete-Records q s s' event done = elim (Bool-cases (is_completion q.new_state)) [
    | inr e ↦ absurd (raised d m _ (ap (λ (p : Result EventRow × Store). p.0) (rw e at done)))
    | inl e ↦ elim (Result-cases (finite_cost q.actual_cost)) [
      | inl (n, at) ↦
          let (r, has) = complete_body-Records q n s s' event (
            transaction_ok (complete_body d m q n) s
              (rw (e, at, complete_campaign_lease) at done)) in
          (n, at, r, has)
      | inr (x, at) ↦ absurd (
          raised d m x (
            ap (λ (p : Result EventRow × Store). p.0)
              (rw (e, at, complete_campaign_lease) at done)))
    ]
  ]
