-- ===== src/Worker/Files.antt =====
-- `read_campaign_execution_records` of src/pelicanbench/campaign_worker.py: the record files as they are
-- read back.
use Prim.Native.String.{compare}
use text.Mathlib.Text.{is_lt}
use pelican_bench.Base.{
  ℕ, String, Bool, true, false, not, Option, none, some, List, [], ◌∷◌, ltb, eqb, ◌==◌, ◌&&◌, ◌||◌,
  is_none,
}
use pelican_bench.Base.Lists.{all, sort_by}
use pelican_bench.Campaign.{CellState}
use pelican_bench.Store.Result.{
  Result, ok, err, ◌>>=◌, ◌>>◌, raise_unless, record_not_object, record_hash_mismatch,
  record_malformed,
}
use pelican_bench.Store.Money.{Amount}
use pelican_bench.Store.Tables.{same_text?}

-- `record["attempt"]`: not there, what `int` reads, or what it refuses
pub data AttemptValue : Type 0 where
  absent : AttemptValue
  integer : ℕ → AttemptValue
  no_integer : AttemptValue

-- The fields of a record file that the reconciliation reads; None stands for a missing field and
-- for a null.
-- A `charged_cost` that `float` refuses is None.
pub record StoredRecord : Type 0 where
  pub campaign_id : Option String
  pub cell_id : Option String
  pub worker_id : Option String
  pub lease_token : Option String
  pub attempt : AttemptValue
  pub terminal_state : Option CellState
  pub terminal_reason : Option String
  pub artifact_id : Option String
  pub charged_cost : Option Amount
  pub record_hash : Option String

-- a file, by what `read_json` gives, with the `content_hash` of what it holds without "record_hash"
pub data RecordFile : Type 0 where
  object : (r : StoredRecord) (payload_hash : String) → RecordFile
  no_object : RecordFile

-- the loop of `read_campaign_execution_records`
unfoldable pub read_files : List RecordFile → Result (List StoredRecord)
read_files [] = ok []
read_files (no_object ∷ files) = err record_not_object
read_files (object r hash ∷ files) = do
  raise_unless (same_text? r.record_hash (some hash)) record_hash_mismatch
  rest ← read_files files
  ok (r ∷ rest)

-- the key of the last sort, where `item["cell_id"]` and `int` do not raise
abbrev pub has_sort_key : StoredRecord → Bool
has_sort_key r = not (is_none r.cell_id) && elim r.attempt [ no_integer ↦ false | _ ↦ true ]

abbrev pub text_or_empty : Option String → String
text_or_empty none = ""
text_or_empty (some t) = t

abbrev pub attempt_or_zero : AttemptValue → ℕ
attempt_or_zero (integer n) = n
attempt_or_zero _ = 0

abbrev pub comes_before : String → String → Bool
comes_before a b = is_lt (compare a b)

abbrev pub record_before : StoredRecord → StoredRecord → Bool
record_before a b =
    let ca = text_or_empty a.cell_id in
    let cb = text_or_empty b.cell_id in
    let na = attempt_or_zero a.attempt in
    let nb = attempt_or_zero b.attempt in
    comes_before ca cb
    || (ca == cb)
      && (ltb na nb
          || eqb na nb && comes_before (text_or_empty a.record_hash) (text_or_empty b.record_hash))

-- `read_campaign_execution_records`, of the files in the order of their paths
unfoldable pub read_campaign_execution_records : List RecordFile → Result (List StoredRecord)
read_campaign_execution_records files = do
  records ← read_files files
  raise_unless (all has_sort_key records) record_malformed
  ok (sort_by record_before records)
