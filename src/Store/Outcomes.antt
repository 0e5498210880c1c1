-- ===== src/Store/Outcomes.antt =====
-- What a call of `complete_campaign_lease` (src/pelicanbench/campaign_store.py) that returned has
-- done, and to which cell. The children are about
-- `heartbeat_campaign_lease`, and about what follows a completion.
pub mod Heartbeat
pub mod Once
use pelican_bench.Base.{
  ◌+◌, ◌⊎◌, ◌≤◌, ◌*◌, ltb, sym, ◌∙◌, ℕ, ◌<◌, String, ◌≡◌, ◌≢◌, refl, ap, subst, true, false, none,
  some, List, ◌∷◌, arith, ◌==◌, eq_iff, leb, Bool-cases, inl, inr,
}
use pelican_bench.Campaign.{CampaignManifest, CellState, leased}
use pelican_bench.Store.Result.{
  ok-injective, Result, ok, err, >>=-eq-ok, ok-pair, Result-cases, Error, raise_if_ok,
  lease_expired,
}
use pelican_bench.Store.Time.{utc, add_seconds, format_utc, parse_utc}
use pelican_bench.Store.Tables.{StoreLease, Store, CellRow, EventRow, find_cell, update_cell}
use pelican_bench.Store.Journal.{Codec, insert_event, verify_manifest, event_row, event_columns}
use pelican_bench.Store.Money.{round8}
use pelican_bench.Store.Queries.{transaction_ok}
use pelican_bench.Store.Holder.{
  HeartbeatRequest, heartbeat_draft, extended_row, extended_lease, later, heartbeat_body,
  heartbeat_campaign_lease, owned_row, Completion, is_completion, finite_cost, completion_draft,
  completed_row, complete_body, complete_campaign_lease,
}
use pelican_bench.Store.Cells.{find-update_self, find-update_ne}
use pelican_bench.Store.Sound.{insert_event_ok}
use pelican_bench.Store.Sound.Holders.{Owns, owned_row_ok}

-- One cell has changed from `old` to `new`, no other has, and one event has been added.
pub record Changes (k : String) (old new : CellRow) (event : EventRow) (s s' : Store) : Type 0 where
  pub before : find_cell k s.cells ≡ some old
  pub after : find_cell k s'.cells ≡ some new
  pub others : (j : String) → j ≢ k → find_cell j s'.cells ≡ find_cell j s.cells
  pub journal : s'.events ≡ event ∷ s.events

module _ (k : String) (f : CellRow → CellRow)
    (keeps : (r : CellRow) → (f r).cell_id ≡ r.cell_id) where
  differ : (j : String) → j ≢ k → (j == k) ≡ false
  differ j ne = ground (arith, eq_iff j k)

  pub updated-Changes :
      (r : CellRow) (event : EventRow) (s s₁ : Store)
      → find_cell k s.cells ≡ some r
      → s₁ ≡ record s { events = event ∷ s.events }
      → Changes k r (f r) event s (record s₁ { cells = update_cell k f s₁.cells })
  updated-Changes r event s s₁ found same = rw same (record {
    before = found;
    after = find-update_self k f keeps r s.cells found;
    others = λ j ne. find-update_ne k j f keeps s.cells (differ j ne);
    journal = refl;
  })

-- The columns of a row that no call changes, and the attempts.
pub record SameCell (old new : CellRow) : Type 0 where
  pub cell_id : new.cell_id ≡ old.cell_id
  pub stage_id : new.stage_id ≡ old.stage_id
  pub model_id : new.model_id ≡ old.model_id
  pub task_id : new.task_id ≡ old.task_id
  pub replicate : new.replicate ≡ old.replicate
  pub seed : new.seed ≡ old.seed
  pub initial_state : new.initial_state ≡ old.initial_state
  pub estimated_cost : new.estimated_cost ≡ old.estimated_cost
  pub attempt_count : new.attempt_count ≡ old.attempt_count

-- The columns of the row that a completion leaves.
pub record IsCompleted (q : Completion) (cost : ℕ) (old new : CellRow) : Type 0 where
  pub cell : SameCell old new
  pub state : new.state ≡ q.new_state
  pub charged : new.actual_cost ≡ old.actual_cost + cost
  pub owner : new.lease_owner ≡ none
  pub token : new.lease_token ≡ none
  pub begun : new.leased_at ≡ none
  pub expiry : new.lease_expires_at ≡ none
  pub artifact : new.artifact_id ≡ q.artifact_id
  pub reason : new.reason ≡ some q.reason
  pub updated : new.updated_at ≡ q.now

-- The columns of the event that a completion writes.
pub record TellsCompletion (q : Completion) (cost : ℕ) (row : CellRow) (event : EventRow)
    : Type 0 where
  pub cell_id : event.cell_id ≡ q.cell_id
  pub previous_state : event.previous_state ≡ leased
  pub new_state : event.new_state ≡ q.new_state
  pub worker_id : event.worker_id ≡ some q.worker_id
  pub lease_token : event.lease_token ≡ some q.lease_token
  pub attempt : event.attempt ≡ row.attempt_count
  pub reason : event.reason ≡ q.reason
  pub actual_cost : event.actual_cost ≡ round8 cost
  pub artifact_id : event.artifact_id ≡ q.artifact_id
  pub occurred_at : event.occurred_at ≡ q.now

-- what a completion that returned rests on, and what it did
pub record Completed (q : Completion) (s : Store) (event : EventRow) (s' : Store) : Type 0 where
  pub row : CellRow
  pub expiry : ℕ
  pub now_value : ℕ
  pub cost : ℕ
  pub owns : Owns q.cell_id q.worker_id q.lease_token s row expiry
  pub at : parse_utc q.now ≡ ok now_value
  pub running : now_value < expiry
  pub charged : finite_cost q.actual_cost ≡ ok cost
  pub completion : is_completion q.new_state ≡ true
  pub left : CellRow
  pub changes : Changes q.cell_id row left event s s'
  pub columns : IsCompleted q cost row left
  pub told : TellsCompletion q cost row event

pub still_running : (a b : ℕ) → leb a b ≡ false → b < a
still_running a b h = ground arith

completed_row-IsCompleted :
    (q : Completion) (cost : ℕ) (r : CellRow) → IsCompleted q cost r (completed_row q cost r)
completed_row-IsCompleted q cost r = record {
  cell = record {
    cell_id = refl;
    stage_id = refl;
    model_id = refl;
    task_id = refl;
    replicate = refl;
    seed = refl;
    initial_state = refl;
    estimated_cost = refl;
    attempt_count = refl;
  };
  state = refl;
  charged = refl;
  owner = refl;
  token = refl;
  begun = refl;
  expiry = refl;
  artifact = refl;
  reason = refl;
  updated = refl;
}

module _ (d : Codec) (m : CampaignManifest) where
  completion_told :
      (q : Completion) (cost : ℕ) (row : CellRow) (events : List EventRow)
      → TellsCompletion q cost row (event_row d m (completion_draft q cost row) events)
  unfolding event_row event_columns
  completion_told q cost row events = record {
    cell_id = refl;
    previous_state = refl;
    new_state = refl;
    worker_id = refl;
    lease_token = refl;
    attempt = refl;
    reason = refl;
    actual_cost = refl;
    artifact_id = refl;
    occurred_at = refl;
  }

  complete_body-Completed :
      (q : Completion) (cost : ℕ) (s s' : Store) (event : EventRow)
      → finite_cost q.actual_cost ≡ ok cost
      → is_completion q.new_state ≡ true
      → complete_body d m q cost s ≡ ok (event, s')
      → Completed q s event s'
  unfolding complete_body
  complete_body-Completed q cost s s' event charged fit done =
      let (_, _, h₁) = >>=-eq-ok (verify_manifest d m s) _ done in
      let ((row, expiry), owned, h₂) =
        >>=-eq-ok (owned_row q.cell_id q.worker_id q.lease_token s) _ h₁ in
      let (n, at, h₃) = >>=-eq-ok (parse_utc q.now) _ h₂ in
      let (running, h₄) = raise_if_ok (leb expiry n) lease_expired _ h₃ in
      let ((written, s₁), inserted, end) =
        >>=-eq-ok (insert_event d m (completion_draft q cost row) s) _ h₄ in
      let a = owned_row_ok q.cell_id q.worker_id q.lease_token s owned in
      let i = insert_event_ok d m (completion_draft q cost row) s inserted in
      record {
        row = row;
        expiry = expiry;
        now_value = n;
        cost = cost;
        owns = a;
        at = at;
        running = still_running expiry n running;
        charged = charged;
        completion = fit;
        left = completed_row q cost row;
        columns = completed_row-IsCompleted q cost row;
        told =
            subst (TellsCompletion q cost row) (sym i.event ∙ (ok-pair end).0)
              (completion_told q cost row s.events);
        changes =
            subst (λ (t : Store). Changes q.cell_id row (completed_row q cost row) event s t)
              (ok-pair end).1
              (subst
                (λ (e : EventRow).
                  Changes q.cell_id row (completed_row q cost row) e s
                    (record s₁ { cells = update_cell q.cell_id (completed_row q cost) s₁.cells }))
                (ok-pair end).0
                (updated-Changes q.cell_id (completed_row q cost) (λ r. refl) row written s s₁
                  a.found i.after));
      }

  pub raised : {A : Type 0} (x : Error) {a : A} → ◌≡◌ {A = Result A} (err x) (ok a) → ⊥
  raised x p = cc

  -- A completion that returns was made by the holder of a running lease, for a state that a lease may
  -- end in and a finite cost. That cell, and no other, is now in the state, its cost is higher by the
  -- cost, its four lease columns are empty, its artifact, reason and time are those of the call, and its
  -- other columns are as before. One event was added, of the cell, the worker, the token, the two states,
  -- the reason, the artifact and the rounded cost.
  pub complete_effect :
      (q : Completion) (s s' : Store) (event : EventRow)
      → complete_campaign_lease d m q s ≡ (ok event, s')
      → Completed q s event s'
  unfolding complete_campaign_lease
  complete_effect q s s' event done = elim (Bool-cases (is_completion q.new_state)) [
    | inr e ↦ absurd (raised _ (ap (λ (p : Result EventRow × Store). p.0) (rw e at done)))
    | inl e ↦ elim (Result-cases (finite_cost q.actual_cost)) [
      | inl (n, at) ↦
          complete_body-Completed q n s s' event at e
            (transaction_ok (complete_body d m q n) s (rw (e, at, complete_campaign_lease) at done))
      | inr (x, at) ↦ absurd (
          raised x (
            ap (λ (p : Result EventRow × Store). p.0)
              (rw (e, at, complete_campaign_lease) at done)))
    ]
  ]
