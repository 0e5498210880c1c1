-- ===== src/Worker/Agreement.antt =====
-- A record file and a terminal event that the reconciliation of
-- src/pelicanbench/campaign_worker.py finds no error in agree.
use pelican_bench.Base.{
  ℕ, ◌+◌, ◌≤◌, ◌≡◌, refl, ap, Bool, true, Option, none, some, List, [], ◌∷◌, ◌++◌, arith, inl, inr,
  Bool-cases,
}
use pelican_bench.Base.Int.{pos_part, neg_part}
use pelican_bench.Base.Lists.{All}
use pelican_bench.Campaign.{CellState, eq_of_same_state}
use pelican_bench.Store.Money.{Amount, finite, infinite, nan, grain}
use pelican_bench.Store.Tables.{EventRow}
use pelican_bench.Store.Tamper.{same_text?-eq}
use pelican_bench.Worker.Files.{AttemptValue, StoredRecord}
use pelican_bench.Worker.Reconcile.{
  Key, Field, Mismatch, field_errors, field_tests, same_attempt, same_state?, cost_errors,
  pair_errors,
}

-- The cost of a record is within 1e-8 of the event's, or is not a number.
abbrev pub IsNear : Option Amount → ℕ → Type 0
IsNear none actual = ⊥
IsNear (some nan) actual = Unit
IsNear (some infinite) actual = ⊥
IsNear (some (finite c)) actual =
    (pos_part c ≤ actual + neg_part c + grain) × (actual + neg_part c ≤ pos_part c + grain)

-- a record file and the terminal event that it goes with
pub record Agree (e : EventRow) (r : StoredRecord) : Type 0 where
  pub campaign : r.campaign_id ≡ some e.campaign_id
  pub cell : r.cell_id ≡ some e.cell_id
  pub worker : r.worker_id ≡ e.worker_id
  pub token : r.lease_token ≡ e.lease_token
  pub attempt : r.attempt ≡ AttemptValue.integer e.attempt
  pub state : r.terminal_state ≡ some e.new_state
  pub reason : r.terminal_reason ≡ some e.reason
  pub artifact : r.artifact_id ≡ e.artifact_id
  pub cost : IsNear r.charged_cost e.actual_cost

pub append_nil : (xs ys : List Mismatch) → xs ++ ys ≡ [] → (xs ≡ []) × (ys ≡ [])
append_nil [] ys h = (refl, h)
append_nil (x ∷ xs) ys h = cc

passed_fields :
    (k : Key) (fields : List (Field × Bool))
    → field_errors k fields ≡ []
    → All (λ (f : Field × Bool). f.1 ≡ true) fields
passed_fields k [] h = tt
passed_fields k (f ∷ fields) h = elim (Bool-cases f.1) [
  | inl e ↦ (e, passed_fields k fields (rw e at h))
  | inr e ↦ absurd (one_error (rw e at h))
]
  where
    one_error : {x : Mismatch} {xs : List Mismatch} → x ∷ xs ≡ [] → ⊥
    one_error p = cc

same_attempt-eq : (a : AttemptValue) (n : ℕ) → same_attempt a n ≡ true → a ≡ AttemptValue.integer n
same_attempt-eq a n h = ground arith

same_state?-eq : (a : Option CellState) (c : CellState) → same_state? a c ≡ true → a ≡ some c
same_state?-eq none c h = cc
same_state?-eq (some b) c h = ap (λ (x : CellState). some x) (eq_of_same_state b c h)

cost_passes : (k : Key) (c : Option Amount) (n : ℕ) → cost_errors k c n ≡ [] → IsNear c n
cost_passes k none n h = cc
cost_passes k (some nan) n h = tt
cost_passes k (some infinite) n h = cc
cost_passes k (some (finite c)) n h = ground arith

pub pair-Agree : (k : Key) (e : EventRow) (r : StoredRecord) → pair_errors k e r ≡ [] → Agree e r
unfolding pair_errors
pair-Agree k e r h =
    let (fields, costs) =
      append_nil (field_errors k (field_tests e r)) (cost_errors k r.charged_cost e.actual_cost)
        h in
    let f = passed_fields k (field_tests e r) fields in
    record {
      campaign = same_text?-eq r.campaign_id (some e.campaign_id) f.0;
      cell = same_text?-eq r.cell_id (some e.cell_id) f.1.0;
      worker = same_text?-eq r.worker_id e.worker_id f.1.1.0;
      token = same_text?-eq r.lease_token e.lease_token f.1.1.1.0;
      attempt = same_attempt-eq r.attempt e.attempt f.1.1.1.1.0;
      state = same_state?-eq r.terminal_state e.new_state f.1.1.1.1.1.0;
      reason = same_text?-eq r.terminal_reason (some e.reason) f.1.1.1.1.1.1.0;
      artifact = same_text?-eq r.artifact_id e.artifact_id f.1.1.1.1.1.1.1.0;
      cost = cost_passes k r.charged_cost e.actual_cost costs;
    }
