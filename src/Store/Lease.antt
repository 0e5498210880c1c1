-- ===== src/Store/Lease.antt =====
-- `_new_lease_token` and `lease_campaign_cells` of src/pelicanbench/campaign_store.py.
use pelican_bench.Base.{
  ℕ, zero, suc, ◌+◌, String, Bool, true, false, Option, none, some, List, [], ◌∷◌, ◌++◌,
  if◌then◌else◌, ltb, leb, ◌==◌, ◌&&◌, ◌||◌,
}
use text.Mathlib.Text.{starts_with}
use pelican_bench.Base.Int.{ℤ, pos, ◌+ℤ◌, ltb_ℤ}
use pelican_bench.Base.Lists.{any, length}
use pelican_bench.Base.Text.{◌^^◌, strip, is_empty, is_blank}
use pelican_bench.Campaign.{CampaignManifest, leased, ready, same_state}
use pelican_bench.Store.Result.{
  Result, ok, err, ◌>>=◌, ◌>>◌, raise_if, worker_id_required, limit_not_positive,
  lease_seconds_not_positive, hard_budget_required, budget_gate_blocked, tokens_exhausted,
}
use pelican_bench.Store.Time.{Timestamp, parse_utc, format_utc, add_seconds}
use pelican_bench.Store.Tables.{Store, CellRow, EventRow, StoreLease, update_cell}
use pelican_bench.Store.Journal.{Codec, EventDraft, insert_event, verify_manifest}
use pelican_bench.Store.Queries.{transaction, query, spent_cost, reserved_cost, active_leases}
use pelican_bench.Store.Reclaim.{reclaim_expired}

-- `SELECT 1 ... WHERE lease_token = ?`
abbrev pub holds_token : String → Option String → Bool
holds_token t none = false
holds_token t (some u) = u == t

unfoldable pub is_used_token : String → Store → Bool
is_used_token t s =
    any (λ (r : CellRow). holds_token t r.lease_token) s.cells
    || any (λ (e : EventRow). holds_token t e.columns.lease_token) s.events

abbrev pub lease_token_of : String → String
lease_token_of raw = if starts_with raw "LEASE-" then raw else "LEASE-" ^^ raw

-- `for _ in range(8)`: the tries left, and the calls of the token factory made so far. The factory
-- is the caller's: `factory n` is the answer of its call number n.
unfoldable pub token_loop : (ℕ → String) → Store → ℕ → ℕ → Result (String × ℕ)
token_loop factory s zero calls = err tokens_exhausted
token_loop factory s (suc tries) calls =
    let again = token_loop factory s tries (suc calls) in
    let raw = strip (factory calls) in
    if is_empty raw || is_used_token (lease_token_of raw) s
    then again
    else ok (lease_token_of raw, suc calls)

-- `_new_lease_token`
abbrev pub new_lease_token : (ℕ → String) → Store → ℕ → Result (String × ℕ)
new_lease_token factory s calls = token_loop factory s 8 calls

-- the arguments of one call of `lease_campaign_cells`
pub record LeaseRequest : Type 0 where
  pub worker_id : String
  pub limit : ℕ
  pub lease_seconds : ℕ
  pub stage_id : Option String
  pub model_id : Option String
  pub now : Timestamp
  pub factory : ℕ → String

-- the variables of the leasing loop
pub record Round : Type 0 where
  pub store : Store
  pub leases : List StoreLease
  pub active : String → ℕ
  pub reserved : ℤ
  pub calls : ℕ

abbrev pub matches? : Option String → String → Bool
matches? none t = true
matches? (some u) t = t == u

-- the WHERE clauses of the query for candidates
abbrev pub is_candidate : LeaseRequest → CellRow → Bool
is_candidate q r =
    same_state r.state ready && matches? q.stage_id r.stage_id && matches? q.model_id r.model_id

abbrev pub lease_reason : String → String
lease_reason worker = "worker-lease:" ^^ worker

abbrev pub lease_draft : LeaseRequest → String → ℤ → CellRow → EventDraft
lease_draft q token estimate row = record {
  cell_id = row.cell_id;
  previous_state = ready;
  new_state = leased;
  occurred_at = q.now;
  worker_id = some q.worker_id;
  lease_token = some token;
  attempt = row.attempt_count + 1;
  reason = lease_reason q.worker_id;
  estimated_cost = estimate;
  actual_cost = pos 0;
  artifact_id = none;
}

-- the UPDATE of `lease_campaign_cells`, whose WHERE clause asks for 'ready' again
abbrev pub leased_row : LeaseRequest → String → ℕ → Timestamp → CellRow → CellRow
leased_row q token attempt expires_at r =
    if same_state r.state ready
    then record r {
      state = leased;
      attempt_count = attempt;
      lease_owner = some q.worker_id;
      lease_token = some token;
      leased_at = some q.now;
      lease_expires_at = some expires_at;
      reason = some (lease_reason q.worker_id);
      updated_at = q.now;
    }
    else r

abbrev pub lease_of : LeaseRequest → String → ℤ → Timestamp → CellRow → StoreLease
lease_of q token estimate expires_at row = record {
  cell_id = row.cell_id;
  stage_id = row.stage_id;
  model_id = row.model_id;
  task_id = row.task_id;
  replicate = row.replicate;
  seed = row.seed;
  worker_id = q.worker_id;
  lease_token = token;
  leased_at = q.now;
  lease_expires_at = expires_at;
  attempt = row.attempt_count + 1;
  estimated_cost = estimate;
}

module _ (d : Codec) (m : CampaignManifest) (q : LeaseRequest) where
  -- the end of a round, where the cell is leased
  unfoldable pub grant : Timestamp → CellRow → ℤ → Round → Result Round
  grant expires_at row estimate l = do
    (token, calls) ← new_lease_token q.factory l.store l.calls
    (event, s) ← insert_event d m (lease_draft q token estimate row) l.store
    ok (record {
      store = record s {
        cells =
            update_cell row.cell_id (leased_row q token (row.attempt_count + 1) expires_at) s.cells;
      };
      leases = l.leases ++ lease_of q token estimate expires_at row ∷ [];
      active = λ model. if row.model_id == model then suc (l.active model) else l.active model;
      reserved = l.reserved +ℤ estimate;
      calls = calls;
    })

  -- one round of the loop; the limit, once reached, is reached in every later round too, which is
  -- the loop's `break`
  unfoldable pub lease_row : ℤ → ℕ → Timestamp → CellRow → Round → Result Round
  lease_row budget spent expires_at row l =
      if leb q.limit (length l.leases) || leb m.max_parallel_per_model (l.active row.model_id)
      then ok l
      else elim row.estimated_cost [
        | none ↦ ok l
        | some estimate ↦
            if ltb_ℤ budget (pos spent +ℤ l.reserved +ℤ estimate)
            then ok l
            else grant expires_at row estimate l
      ]

  unfoldable pub lease_rows : ℤ → ℕ → Timestamp → List CellRow → Round → Result Round
  lease_rows budget spent expires_at [] l = ok l
  lease_rows budget spent expires_at (row ∷ rows) l = do
    l' ← lease_row budget spent expires_at row l
    lease_rows budget spent expires_at rows l'

  abbrev pub first_round : Store → Round
  first_round s = record {
    store = s;
    leases = [];
    active = λ model. active_leases model s.cells;
    reserved = reserved_cost s.cells;
    calls = 0;
  }

  -- the body of the transaction, after the checks
  unfoldable pub lease_body : ℤ → Timestamp → Store → Result (List StoreLease × Store)
  lease_body budget expires_at s = do
    verify_manifest d m s
    (_, s') ← reclaim_expired d m q.now s
    l ←
        lease_rows budget (spent_cost s'.cells) expires_at (query (is_candidate q) s'.cells)
          (first_round s')
    ok (l.leases, l.store)

  -- the checks before the transaction: the budget, and when the leases expire
  unfoldable pub check_request : Result (ℤ × Timestamp)
  check_request = do
    raise_if (is_blank q.worker_id) worker_id_required
    raise_if (ltb q.limit 1) limit_not_positive
    raise_if (ltb q.lease_seconds 1) lease_seconds_not_positive
    budget ← elim m.hard_budget [ none ↦ err hard_budget_required | some b ↦ ok b ]
    raise_if (starts_with m.budget_gate "blocked-") budget_gate_blocked
    now_value ← parse_utc q.now
    expiry ← add_seconds now_value q.lease_seconds
    ok (budget, format_utc expiry)

  unfoldable pub lease_campaign_cells : Store → Result (List StoreLease) × Store
  lease_campaign_cells s = elim check_request [
    | err e ↦ (err e, s)
    | ok (budget, expires_at) ↦ transaction (lease_body budget expires_at) s
  ]
