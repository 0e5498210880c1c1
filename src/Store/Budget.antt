-- ===== src/Store/Budget.antt =====
-- Leasing (`lease_campaign_cells` of src/pelicanbench/campaign_store.py) against the hard budget and
-- the cap on the parallel leases of a model.
mod Terms
mod Rounds
mod Freed
pub use Terms.*
use pelican_bench.Base.{
  ℕ, suc, ◌+◌, ◌≤◌, String, ◌≡◌, ◌≢◌, refl, sym, ap, subst, ◌∙◌, Bool, true, false, Option, none,
  some, List, [], ◌∷◌, ◌++◌, arith, ◌==◌, eq_iff, ◌⊎◌, ◌&&◌, ◌||◌, leb, Bool-cases, inl, inr,
  if◌then◌else◌,
}
use pelican_bench.Base.Int.{ℤ, pos, ◌+ℤ◌, ◌≤ℤ◌, ltb_ℤ, int_laws, +ℤ_assoc, +ℤ_zero, ≤ℤ_of_not_lt}
use pelican_bench.Base.Lists.{All, length}
use pelican_bench.Campaign.{CampaignManifest, leased, ready}
use pelican_bench.Store.Result.{Result, ok, err, ◌>>=◌, >>=-eq-ok, ok-pair, Error, Result-cases}
use pelican_bench.Store.Time.{Timestamp, parse_utc}
use pelican_bench.Store.Money.{or_zero}
use pelican_bench.Store.Tables.{
  Store, CellRow, EventRow, StoreLease, is_leased, find_cell, update_cell,
}
use pelican_bench.Store.Journal.{Codec, insert_event, verify_manifest}
use pelican_bench.Store.Queries.{
  transaction_ok, query, spent_cost, reserved_cost, reserve_of, active_leases, one_if,
}
use pelican_bench.Store.Reclaim.{free_row, expiry_draft, may_expire, reclaim_expired}
use pelican_bench.Store.Lease.{
  LeaseRequest, Round, lease_draft, leased_row, is_candidate, first_round, lease_rows, lease_body,
  check_request, lease_campaign_cells,
}
use pelican_bench.Store.Cells.{Unique, update-Unique, query-IsSnapshot, query-All}
use pelican_bench.Store.Sums.{spent-update, reserved-update, active-update}
use pelican_bench.Store.Loops.{freed, reclaim_rows_induction}
use pelican_bench.Store.Loops.Leasing.{granted, Grants, leased_row-KeepsKey, lease_rows_induction}
use pelican_bench.Store.Sound.{IsSound, insert_event_ok}
use pelican_bench.Store.Sound.Writes.{Writes-IsSound}
use pelican_bench.Store.Sound.Operations.{
  is_candidate-ready, may_expire-leased, reclaim_expired-Writes,
}
use Rounds.{Accounts, granted-Accounts}
use Freed.{reclaim_expired-Lower, Lower}

check_request_ok :
    (d : Codec) (m : CampaignManifest) (q : LeaseRequest) {budget : ℤ} {t : Timestamp}
    → check_request d m q ≡ ok (budget, t)
    → m.hard_budget ≡ some budget
unfolding check_request
check_request_ok d m q h = ground arith

-- How a call that returned went: what it reclaimed, and the loop's variables at its end.
record Leasing (d : Codec) (m : CampaignManifest) (q : LeaseRequest) (s s' : Store)
    (leases : List StoreLease) : Type 0 where
  budget : ℤ
  hard : m.hard_budget ≡ some budget
  expires_at : Timestamp
  freed_store : Store
  lower : Lower s.cells freed_store.cells
  last : Round
  accounts : Accounts d m q budget freed_store expires_at last
  given : last.leases ≡ leases
  stored : last.store ≡ s'

module _ (d : Codec) (m : CampaignManifest) (q : LeaseRequest) where
  first-Accounts :
      (budget : ℤ) (expires_at : Timestamp) (s : Store)
      → Unique s.cells
      → Accounts d m q budget s expires_at (first_round d m q s)
  first-Accounts budget expires_at s u = record {
    unique = u;
    spent = refl;
    reserved = refl;
    active = λ model. refl;
    granted_within = λ h. absurd (h refl);
    stays_within = λ h. h;
    capped = λ h. h;
  }

  lease_body-Leasing :
      (budget : ℤ) (expires_at : Timestamp) (s s' : Store) (leases : List StoreLease)
      → m.hard_budget ≡ some budget
      → IsSound d m s
      → lease_body d m q budget expires_at s ≡ ok (leases, s')
      → Leasing d m q s s' leases
  unfolding lease_body
  lease_body-Leasing budget expires_at s s' leases hard h done =
      let (_, _, reclaim) = >>=-eq-ok (verify_manifest d m s) _ done in
      let ((_, s₁), reclaimed, loop) = >>=-eq-ok (reclaim_expired d m q.now s) _ reclaim in
      let rows = query (is_candidate q) s₁.cells in
      let first = first_round d m q s₁ in
      let (l, looped, end) =
        >>=-eq-ok (lease_rows d m q budget (spent_cost s₁.cells) expires_at rows first) _ loop in
      let low = reclaim_expired-Lower d m q.now s.cells s refl h.unique reclaimed in
      record {
        budget = budget;
        hard = hard;
        expires_at = expires_at;
        freed_store = s₁;
        lower = low;
        last = l;
        accounts =
            lease_rows_induction d m q budget (spent_cost s₁.cells) expires_at
              (Accounts d m q budget s₁ expires_at) (granted-Accounts d m q budget s₁ expires_at)
              rows first (first-Accounts budget expires_at s₁ low.unique)
              (query-IsSnapshot (is_candidate q) s₁.cells low.unique)
              (query-All (λ (r : CellRow). r.state ≡ ready) (is_candidate q) s₁.cells
                (is_candidate-ready q))
              looped;
        given = (ok-pair end).0;
        stored = (ok-pair end).1;
      }

  lease-Leasing :
      (s s' : Store) (leases : List StoreLease)
      → IsSound d m s
      → lease_campaign_cells d m q s ≡ (ok leases, s')
      → Leasing d m q s s' leases
  unfolding lease_campaign_cells
  lease-Leasing s s' leases h done = elim (Result-cases (check_request d m q)) [
    | inl (r, e) ↦
        lease_body-Leasing r.0 r.1 s s' leases (check_request_ok d m q e) h
          (transaction_ok (lease_body d m q r.0 r.1) s (rw (e, lease_campaign_cells) at done))
    | inr (x, e) ↦ absurd (
        raised x (
          ap (λ (p : Result (List StoreLease) × Store). p.0)
            (rw (e, lease_campaign_cells) at done)))
  ]
    where
      raised : (x : Error) → ◌≡◌ {A = Result (List StoreLease)} (err x) (ok leases) → ⊥
      raised x p = cc

  -- A call on a sound store that returns at least one lease leaves the cost that is spent and the cost
  -- that all leased cells reserve, together, within the hard budget, even if they were not before.
  pub lease-WithinBudget :
      (budget : ℤ) (s s' : Store) (leases : List StoreLease)
      → IsSound d m s
      → m.hard_budget ≡ some budget
      → leases ≢ []
      → lease_campaign_cells d m q s ≡ (ok leases, s')
      → WithinBudget budget s'.cells
  lease-WithinBudget budget s s' leases h hard some_given done =
      let o = lease-Leasing s s' leases h done in
      let same : o.budget ≡ budget = some_ℤ (sym o.hard ∙ hard) in
      let fits = o.accounts.granted_within (λ e. some_given (sym o.given ∙ e)) in
      subst (λ (x : Store). WithinBudget budget x.cells) o.stored
        (rw (o.accounts.spent, ← o.accounts.reserved, ← same) fits)
    where
      some_ℤ : {a b : ℤ} → some a ≡ some b → a ≡ b
      some_ℤ p = cc

  -- A call on a sound store that returns leaves no model with more leases than the cap, if none had
  -- more before.
  pub lease-IsCapped :
      (s s' : Store) (leases : List StoreLease)
      → IsSound d m s
      → IsCapped m.max_parallel_per_model s.cells
      → lease_campaign_cells d m q s ≡ (ok leases, s')
      → IsCapped m.max_parallel_per_model s'.cells
  lease-IsCapped s s' leases h capped done =
      let o = lease-Leasing s s' leases h done in
      subst (λ (x : Store). IsCapped m.max_parallel_per_model x.cells) o.stored
        (λ model.
          subst (λ (n : ℕ). n ≤ m.max_parallel_per_model) (o.accounts.active model)
            (o.accounts.capped (λ other. omega (arith, o.lower.active other, capped other)) model))
