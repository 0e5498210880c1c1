-- ===== src/Store/Sound/Holders.antt =====
-- `heartbeat_campaign_lease`, `complete_campaign_lease` and `requeue_failed_cell` of
-- src/pelicanbench/campaign_store.py as writes, on a sound store.
use pelican_bench.Base.{
  ℕ, ◌+◌, String, ◌≡◌, ◌≢◌, refl, sym, ap, subst, subst₂, true, some, List, arith, ◌&&◌, ltb, leb,
  ◌==◌, Bool-cases, inl, inr, &&-eq-true,
}
use pelican_bench.Campaign.{CampaignManifest, leased, eq_of_same_state}
use pelican_bench.Store.Result.{
  ok, >>=-eq-ok, ok-pair, Result-cases, raise_unless_ok, raise_if_ok, lease_expired,
}
use pelican_bench.Store.Time.{Timestamp, parse_utc, add_seconds, format_utc}
use pelican_bench.Store.Money.{round8, Amount}
use pelican_bench.Store.Tables.{Store, CellRow, EventRow, StoreLease, is_leased, find_cell}
use pelican_bench.Store.Journal.{Codec, insert_event, verify_manifest}
use pelican_bench.Store.Queries.{transaction_keeps, require_cell, text_of, parse_column}
use pelican_bench.Store.Reconcile.{lease_is_clean}
use pelican_bench.Store.Holder.{
  owned_row, HeartbeatRequest, heartbeat_draft, extended_row, later, heartbeat_body,
  heartbeat_campaign_lease, Completion, is_completion, finite_cost, completion_draft, completed_row,
  complete_body, complete_campaign_lease,
}
use pelican_bench.Store.Requeue.{
  RequeueRequest, requeue_draft, requeued_row, requeue_body, requeue_failed_cell,
}
use pelican_bench.Store.Sound.{IsSound, find_replay-Tracks}
use pelican_bench.Store.Sound.Writes.{Writes, write, start, more}
use pelican_bench.Store.Sound.Operations.{free_of_charge}

pub require_cell_ok :
    (k : String) (rows : List CellRow) {r : CellRow}
    → require_cell k rows ≡ ok r
    → find_cell k rows ≡ some r
require_cell_ok k rows h = ground arith

-- What the holder's checks have found out where they pass.
pub record Owns (cell_id worker_id lease_token : String) (s : Store) (row : CellRow) (expiry : ℕ)
    : Type 0 where
  pub found : find_cell cell_id s.cells ≡ some row
  pub live : row.state ≡ leased
  pub owner : (text_of row.lease_owner == worker_id) ≡ true
  pub token : (text_of row.lease_token == lease_token) ≡ true
  pub expires : parse_column row.lease_expires_at ≡ ok expiry

owned_facts :
    (cell_id worker_id lease_token : String) (s : Store) {row : CellRow} {expiry : ℕ}
    → require_cell cell_id s.cells ≡ ok row
    → is_leased row ≡ true
    → ((text_of row.lease_owner == worker_id) && (text_of row.lease_token == lease_token)) ≡ true
    → parse_column row.lease_expires_at ≡ ok expiry
    → Owns cell_id worker_id lease_token s row expiry
owned_facts c w l s {row} found live who expires =
    let (owner, token) = &&-eq-true _ _ who in
    record {
      found = require_cell_ok c s.cells found;
      live = eq_of_same_state row.state leased live;
      owner = owner;
      token = token;
      expires = expires;
    }

pub owned_row_ok :
    (cell_id worker_id lease_token : String) (s : Store) {row : CellRow} {expiry : ℕ}
    → owned_row cell_id worker_id lease_token s ≡ ok (row, expiry)
    → Owns cell_id worker_id lease_token s row expiry
unfolding owned_row
owned_row_ok c w l s h =
    let (row, found, h₁) = >>=-eq-ok (require_cell c s.cells) _ h in
    let (live, h₂) = raise_unless_ok _ _ _ h₁ in
    let (who, h₃) = raise_unless_ok _ _ _ h₂ in
    let (expiry, expires, h₄) = >>=-eq-ok (parse_column row.lease_expires_at) _ h₃ in
    subst₂ (Owns c w l s) (ok-pair h₄).0 (ok-pair h₄).1 (owned_facts c w l s found live who expires)

module _ (d : Codec) (m : CampaignManifest) where
  clean_of_found :
      (k : String) (s : Store) {r : CellRow}
      → IsSound d m s
      → find_cell k s.cells ≡ some r
      → lease_is_clean r ≡ true
  clean_of_found k s {r} h found =
      (find_replay-Tracks k r s.cells h.view.replayed h.tracks found).2.clean

  extended-clean :
      (q : HeartbeatRequest) (t : Timestamp) (r : CellRow)
      → r.state ≡ leased
      → lease_is_clean r ≡ true
      → lease_is_clean (extended_row q t r) ≡ true
  extended-clean q t r live clean = ground arith

  heartbeat_body-Writes :
      (q : HeartbeatRequest) (now_value : ℕ) (s : Store) {lease : StoreLease} {s' : Store}
      → IsSound d m s
      → heartbeat_body d m q now_value s ≡ ok (lease, s')
      → Writes d m s s'
  unfolding heartbeat_body
  heartbeat_body-Writes q n s h done =
      let (_, _, h₁) = >>=-eq-ok (verify_manifest d m s) _ done in
      let ((row, expiry), owned, h₁') =
        >>=-eq-ok (owned_row q.cell_id q.worker_id q.lease_token s) _ h₁ in
      let (_, h₂) = raise_if_ok (leb expiry n) lease_expired _ h₁' in
      let (target, _, h₃) = >>=-eq-ok (add_seconds n q.extend_seconds) _ h₂ in
      let ((event, s₁), inserted, end) =
        >>=-eq-ok (insert_event d m (heartbeat_draft q row) s) _ h₃ in
      let a = owned_row_ok q.cell_id q.worker_id q.lease_token s owned in
      let t = format_utc (later expiry target) in
      subst (Writes d m s) (ok-pair end).1 (
        more start (
          write (heartbeat_draft q row) (extended_row q t) row event s₁ (λ r. refl) a.found a.live
            (record {
              to_state = a.live;
              to_cost = free_of_charge row.actual_cost;
              clean = extended-clean q t row a.live (clean_of_found q.cell_id s h a.found);
            })
            inserted))

  pub heartbeat_campaign_lease-Writes :
      (q : HeartbeatRequest) (s : Store)
      → IsSound d m s
      → Writes d m s (heartbeat_campaign_lease d m q s).1
  unfolding heartbeat_campaign_lease
  heartbeat_campaign_lease-Writes q s h = elim (Bool-cases (ltb q.extend_seconds 1)) [
    | inl e ↦ rw e start
    | inr e ↦ rw e (elim (Result-cases (parse_utc q.now)) [
      | inl (n, at) ↦
          rw (at, heartbeat_campaign_lease)
            (transaction_keeps (Writes d m s) (heartbeat_body d m q n) s start
              (λ lease s' done. heartbeat_body-Writes q n s h done))
      | inr (x, at) ↦ rw (at, heartbeat_campaign_lease) start
    ])
  ]

  completed-clean :
      (q : Completion) (cost : ℕ) (r : CellRow)
      → is_completion q.new_state ≡ true
      → lease_is_clean (completed_row q cost r) ≡ true
  completed-clean q cost r fit = ground arith

  complete_body-Writes :
      (q : Completion) (cost : ℕ) (s : Store) {event : EventRow} {s' : Store}
      → is_completion q.new_state ≡ true
      → round8 cost ≡ cost
      → IsSound d m s
      → complete_body d m q cost s ≡ ok (event, s')
      → Writes d m s s'
  unfolding complete_body
  complete_body-Writes q cost s fit grains h done =
      let (_, _, h₁) = >>=-eq-ok (verify_manifest d m s) _ done in
      let ((row, expiry), owned, h₂) =
        >>=-eq-ok (owned_row q.cell_id q.worker_id q.lease_token s) _ h₁ in
      let (n, _, h₃) = >>=-eq-ok (parse_utc q.now) _ h₂ in
      let (_, h₇) = raise_if_ok (leb expiry n) lease_expired _ h₃ in
      let a = owned_row_ok q.cell_id q.worker_id q.lease_token s owned in
      let ((event, s₁), inserted, end) =
        >>=-eq-ok (insert_event d m (completion_draft q cost row) s) _ h₇ in
      subst (Writes d m s) (ok-pair end).1 (
        more start (
          write (completion_draft q cost row) (completed_row q cost) row event s₁ (λ r. refl)
            a.found a.live
            (record {
              to_state = refl;
              to_cost = ap (λ n. row.actual_cost + n) (sym grains);
              clean = completed-clean q cost row fit;
            })
            inserted))

  -- a cost that `round(x, 8)` leaves as it is
  abbrev pub InGrains : Amount → Type 0
  InGrains a = (n : ℕ) → finite_cost a ≡ ok n → round8 n ≡ n

  pub complete_campaign_lease-Writes :
      (q : Completion) (s : Store)
      → InGrains q.actual_cost
      → IsSound d m s
      → Writes d m s (complete_campaign_lease d m q s).1
  unfolding complete_campaign_lease
  complete_campaign_lease-Writes q s grains h = elim (Bool-cases (is_completion q.new_state)) [
    | inr e ↦ rw e start
    | inl e ↦ elim (Result-cases (finite_cost q.actual_cost)) [
      | inl (n, at) ↦
          rw (e, at, complete_campaign_lease)
            (transaction_keeps (Writes d m s) (complete_body d m q n) s start
              (λ event s' done. complete_body-Writes q n s e (grains n at) h done))
      | inr (x, at) ↦ rw (e, at, complete_campaign_lease) start
    ]
  ]

  requeued-clean :
      (q : RequeueRequest) (r : CellRow)
      → r.state ≢ leased
      → lease_is_clean r ≡ true
      → lease_is_clean (requeued_row q r) ≡ true
  requeued-clean q r idle clean = ground arith

  requeue_body-Writes :
      (q : RequeueRequest) (s : Store) {event : EventRow} {s' : Store}
      → ((r : CellRow) → find_cell q.cell_id s.cells ≡ some r → r.state ≢ leased)
      → IsSound d m s
      → requeue_body d m q s ≡ ok (event, s')
      → Writes d m s s'
  unfolding requeue_body
  requeue_body-Writes q s idle h done =
      let (_, _, h₁) = >>=-eq-ok (verify_manifest d m s) _ done in
      let (row, there, h₂) = >>=-eq-ok (require_cell q.cell_id s.cells) _ h₁ in
      let ((event, s₁), inserted, end) =
        >>=-eq-ok (insert_event d m (requeue_draft q row) s) _ h₂ in
      let found = require_cell_ok q.cell_id s.cells there in
      subst (Writes d m s) (ok-pair end).1 (
        more start (
          write (requeue_draft q row) (requeued_row q) row event s₁ (λ r. refl) found refl
            (record {
              to_state = refl;
              to_cost = free_of_charge row.actual_cost;
              clean = requeued-clean q row (idle row found) (clean_of_found q.cell_id s h found);
            })
            inserted))

  pub requeue_failed_cell-Writes :
      (q : RequeueRequest) (s : Store)
      → ((r : CellRow) → find_cell q.cell_id s.cells ≡ some r → r.state ≢ leased)
      → IsSound d m s
      → Writes d m s (requeue_failed_cell d m q s).1
  unfolding requeue_failed_cell
  requeue_failed_cell-Writes q s idle h =
      transaction_keeps (Writes d m s) (requeue_body d m q) s start
        (λ event s' done. requeue_body-Writes q s idle h done)
