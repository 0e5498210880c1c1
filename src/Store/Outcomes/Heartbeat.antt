-- ===== src/Store/Outcomes/Heartbeat.antt =====
-- What a call of `heartbeat_campaign_lease` (src/pelicanbench/campaign_store.py) that returned has
-- done, and to which cell.
use pelican_bench.Base.{
  ◌+◌, ◌⊎◌, ◌≤◌, ◌*◌, ltb, ℕ, ◌<◌, ◌≡◌, refl, ap, subst, arith, leb, Bool-cases, inl, inr, some,
}
use pelican_bench.Campaign.{CampaignManifest}
use pelican_bench.Store.Result.{
  Result, ok, >>=-eq-ok, ok-pair, Result-cases, raise_if_ok, lease_expired,
}
use pelican_bench.Store.Time.{utc, add_seconds, parse_utc}
use pelican_bench.Store.Tables.{StoreLease, Store, CellRow, EventRow, update_cell}
use pelican_bench.Store.Journal.{Codec, insert_event, verify_manifest}
use pelican_bench.Store.Queries.{transaction_ok}
use pelican_bench.Store.Holder.{
  HeartbeatRequest, heartbeat_draft, extended_row, later, heartbeat_body, heartbeat_campaign_lease,
  owned_row,
}
use pelican_bench.Store.Sound.{insert_event_ok}
use pelican_bench.Store.Sound.Holders.{Owns, owned_row_ok}
use pelican_bench.Store.Outcomes.{Changes, SameCell, updated-Changes, still_running, raised}

-- The columns of the row that a heartbeat leaves.
pub record IsExtended (q : HeartbeatRequest) (until : ℕ) (old new : CellRow) : Type 0 where
  pub cell : SameCell old new
  pub expiry : new.lease_expires_at ≡ some (utc until)
  pub state : new.state ≡ old.state
  pub actual_cost : new.actual_cost ≡ old.actual_cost
  pub owner : new.lease_owner ≡ old.lease_owner
  pub token : new.lease_token ≡ old.lease_token
  pub begun : new.leased_at ≡ old.leased_at
  pub artifact : new.artifact_id ≡ old.artifact_id
  pub updated : new.updated_at ≡ q.now

-- what a heartbeat that returned rests on, and what it did
pub record Renewed (q : HeartbeatRequest) (s : Store) (lease : StoreLease) (s' : Store)
    : Type 0 where
  pub row : CellRow
  pub expiry : ℕ
  pub now_value : ℕ
  pub event : EventRow
  pub owns : Owns q.cell_id q.worker_id q.lease_token s row expiry
  pub at : parse_utc q.now ≡ ok now_value
  pub running : now_value < expiry
  pub positive : 1 ≤ q.extend_seconds
  pub until : ℕ
  pub renewed : lease.lease_expires_at ≡ utc until
  pub kept : expiry ≤ until
  pub granted : now_value + q.extend_seconds * 1000000 ≤ until
  pub bounded : until ≤ expiry ⊎ (until ≡ now_value + q.extend_seconds * 1000000)
  pub left : CellRow
  pub changes : Changes q.cell_id row left event s s'
  pub columns : IsExtended q until row left

extended_row-IsExtended :
    (q : HeartbeatRequest) (until : ℕ) (r : CellRow)
    → IsExtended q until r (extended_row q (utc until) r)
extended_row-IsExtended q until r = record {
  cell = record {
    cell_id = refl;
    stage_id = refl;
    model_id = refl;
    task_id = refl;
    replicate = refl;
    seed = refl;
    initial_state = refl;
    estimated_cost = refl;
    attempt_count = refl;
  };
  expiry = refl;
  state = refl;
  actual_cost = refl;
  owner = refl;
  token = refl;
  begun = refl;
  artifact = refl;
  updated = refl;
}

add_seconds_ok : (t n : ℕ) {u : ℕ} → add_seconds t n ≡ ok u → u ≡ t + n * 1000000
unfolding add_seconds
add_seconds_ok t n h = ground arith

module _ (a b : ℕ) where
  later_left : a ≤ later a b
  later_left = ground arith

  later_right : b ≤ later a b
  later_right = ground arith

  later_one : later a b ≤ a ⊎ (later a b ≡ b)
  later_one = elim (Bool-cases (leb b a)) [
    | inl e ↦ inl (rw e (omega arith))
    | inr e ↦ inr (rw e refl)
  ]

module _ (d : Codec) (m : CampaignManifest) where
  heartbeat_body-Renewed :
      (q : HeartbeatRequest) (n : ℕ) (s s' : Store) (lease : StoreLease)
      → parse_utc q.now ≡ ok n
      → 1 ≤ q.extend_seconds
      → heartbeat_body d m q n s ≡ ok (lease, s')
      → Renewed q s lease s'
  unfolding heartbeat_body
  heartbeat_body-Renewed q n s s' lease at positive done =
      let (_, _, h₁) = >>=-eq-ok (verify_manifest d m s) _ done in
      let ((row, expiry), owned, h₂) =
        >>=-eq-ok (owned_row q.cell_id q.worker_id q.lease_token s) _ h₁ in
      let (running, h₃) = raise_if_ok (leb expiry n) lease_expired _ h₂ in
      let (target, added, h₄) = >>=-eq-ok (add_seconds n q.extend_seconds) _ h₃ in
      let ((event, s₁), inserted, end) =
        >>=-eq-ok (insert_event d m (heartbeat_draft q row) s) _ h₄ in
      let aim = add_seconds_ok n q.extend_seconds added in
      let until = utc (later expiry target) in
      let i = insert_event_ok d m (heartbeat_draft q row) s inserted in
      subst (λ (t : Store). Renewed q s lease t) (ok-pair end).1
        (subst
          (λ (l : StoreLease).
            Renewed q s l
              (record s₁ { cells = update_cell q.cell_id (extended_row q until) s₁.cells }))
          (ok-pair end).0
          (record {
            row = row;
            expiry = expiry;
            now_value = n;
            event = event;
            owns = owned_row_ok q.cell_id q.worker_id q.lease_token s owned;
            at = at;
            running = still_running expiry n running;
            positive = positive;
            until = later expiry target;
            renewed = refl;
            kept = later_left expiry target;
            granted = subst (λ (x : ℕ). x ≤ later expiry target) aim (later_right expiry target);
            bounded =
                subst (λ (x : ℕ). later expiry target ≤ expiry ⊎ (later expiry target ≡ x)) aim
                  (later_one expiry target);
            left = extended_row q until row;
            columns = extended_row-IsExtended q (later expiry target) row;
            changes =
                updated-Changes q.cell_id (extended_row q until) (λ r. refl) row event s s₁
                  (owned_row_ok q.cell_id q.worker_id q.lease_token s owned).found i.after;
          }))

  -- A heartbeat that returns was made by the holder of a running lease, for at least one second. The
  -- lease in the store, and the one that is returned, now end at the later of the old end and the time of
  -- the call plus the extension, so that a lease is never shortened. The cell's state, cost, owner, token,
  -- artifact and beginning of the lease are as before, no other cell has changed, and one event was
  -- written.
  pub heartbeat_effect :
      (q : HeartbeatRequest) (s s' : Store) (lease : StoreLease)
      → heartbeat_campaign_lease d m q s ≡ (ok lease, s')
      → Renewed q s lease s'
  unfolding heartbeat_campaign_lease
  heartbeat_effect q s s' lease done = elim (Bool-cases (ltb q.extend_seconds 1)) [
    | inl e ↦ absurd (raised d m _ (ap (λ (p : Result StoreLease × Store). p.0) (rw e at done)))
    | inr e ↦ elim (Result-cases (parse_utc q.now)) [
      | inl (n, at) ↦
          heartbeat_body-Renewed q n s s' lease at (ground (arith, e)) (
            transaction_ok (heartbeat_body d m q n) s
              (rw (e, at, heartbeat_campaign_lease) at done))
      | inr (x, at) ↦ absurd (
          raised d m x (
            ap (λ (p : Result StoreLease × Store). p.0)
              (rw (e, at, heartbeat_campaign_lease) at done)))
    ]
  ]
