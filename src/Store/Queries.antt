-- ===== src/Store/Queries.antt =====
-- What the operations of src/pelicanbench/campaign_store.py share: transactions, the queries on
-- the table `cells`, and the drafts of events.
use Prim.Native.String.{compare}
use text.Mathlib.Text.{is_lt}
use pelican_bench.Base.{
  ℕ, ◌+◌, ◌≡◌, inl, inr, String, Bool, true, false, Option, none, some, List, [], ◌∷◌,
  if◌then◌else◌, ◌==◌, ltb, ◌&&◌, ◌||◌, arith,
}
use pelican_bench.Base.Int.{ℤ, pos, ◌+ℤ◌}
use pelican_bench.Base.Lists.{select, sort_by}
use pelican_bench.Store.Result.{Result, ok, err, Error, bad_timestamp, unknown_cell, Result-cases}
use pelican_bench.Store.Time.{Timestamp, parse_utc}
use pelican_bench.Store.Money.{or_zero}
use pelican_bench.Store.Tables.{Store, CellRow, is_leased, find_cell}

-- BEGIN IMMEDIATE; the body; COMMIT. An exception rolls back and is raised again.
abbrev pub transaction {ℓ} : {A : Type ℓ} → (Store → Result (A × Store)) → Store → Result A × Store
transaction body s = elim (body s) [ ok (a, s') ↦ (ok a, s') | err e ↦ (err e, s) ]

-- `_parse_utc(str(column))`; the text of None is no timestamp
abbrev pub parse_column : Option Timestamp → Result ℕ
parse_column none = err bad_timestamp
parse_column (some t) = parse_utc t

-- `str(column)`
abbrev pub text_of : Option String → String
text_of none = "None"
text_of (some t) = t

-- `fetchone()` of `SELECT * FROM cells WHERE cell_id = ?`, and the test for None
abbrev pub require_cell : String → List CellRow → Result CellRow
require_cell k rows = elim (find_cell k rows) [ none ↦ err unknown_cell | some row ↦ ok row ]

text_before : String → String → Bool
text_before a b = is_lt (compare a b)

-- ORDER BY stage_id, model_id, task_id, replicate
unfoldable pub row_before : CellRow → CellRow → Bool
unfolding text_before
row_before a b =
    text_before a.stage_id b.stage_id
    || (a.stage_id == b.stage_id)
      && (text_before a.model_id b.model_id
          || (a.model_id == b.model_id)
            && (text_before a.task_id b.task_id
                || (a.task_id == b.task_id) && ltb a.replicate b.replicate))

-- SELECT * FROM cells WHERE test ORDER BY stage_id, model_id, task_id, replicate
abbrev pub query : (CellRow → Bool) → List CellRow → List CellRow
query test rows = sort_by row_before (select test rows)

-- SELECT COALESCE(SUM(actual_cost), 0) FROM cells
unfoldable pub spent_cost : List CellRow → ℕ
spent_cost [] = 0
spent_cost (r ∷ rows) = r.actual_cost + spent_cost rows

-- what one row adds to SUM(estimated_cost) over the leased cells
abbrev pub reserve_of : CellRow → ℤ
reserve_of r = if is_leased r then or_zero r.estimated_cost else pos 0

-- SELECT COALESCE(SUM(estimated_cost), 0) FROM cells WHERE state = 'leased'
unfoldable pub reserved_cost : List CellRow → ℤ
reserved_cost [] = pos 0
reserved_cost (r ∷ rows) = reserve_of r +ℤ reserved_cost rows

abbrev pub one_if : Bool → ℕ
one_if true = 1
one_if false = 0

-- Counter(row["model_id"] for the leased cells)[model_id]
unfoldable pub active_leases : String → List CellRow → ℕ
active_leases model [] = 0
active_leases model (r ∷ rows) =
    one_if (is_leased r && (r.model_id == model)) + active_leases model rows

-- What a transaction's body keeps, the transaction keeps, whether it commits or rolls back.
pub transaction_keeps {ℓ κ} :
    {A : Type ℓ} (P : Store → Type κ) (body : Store → Result (A × Store)) (s : Store)
    → P s
    → ((a : A) (s' : Store) → body s ≡ ok (a, s') → P s')
    → P (transaction body s).1
transaction_keeps P body s p keep = elim (Result-cases (body s)) [
  | inl (r, e) ↦ rw (e, transaction) (keep r.0 r.1 e)
  | inr (x, e) ↦ rw (e, transaction) p
]

-- A transaction that returned has committed what its body made.
pub transaction_ok {ℓ} :
    {A : Type ℓ} (body : Store → Result (A × Store)) (s : Store) {a : A} {s' : Store}
    → transaction body s ≡ (ok a, s')
    → body s ≡ ok (a, s')
transaction_ok body s h = ground arith

-- A transaction that raised has changed nothing.
pub transaction_err {ℓ} :
    {A : Type ℓ} (body : Store → Result (A × Store)) (s : Store) {e : Error} {s' : Store}
    → transaction body s ≡ (err e, s')
    → s' ≡ s
transaction_err body s h = ground arith
