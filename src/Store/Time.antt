-- ===== src/Store/Time.antt =====
-- `_parse_utc` and `_format_utc` of src/pelicanbench/campaign_store.py. An instant is the number of
-- microseconds since the year 1 in UTC, which is Python's resolution and lower bound.
use pelican_bench.Base.{ℕ, ◌+◌, ◌*◌, String, Bool, false, leb, eqb, ◌==◌, if◌then◌else◌}
use pelican_bench.Store.Result.{Result, ok, err, bad_timestamp, naive_timestamp, time_overflow}

-- A timestamp's text, by what `datetime.fromisoformat` makes of it.
pub data Timestamp : Type 0 where
  utc : ℕ → Timestamp
  no_zone : ℕ → Timestamp
  unreadable : String → Timestamp

-- `_parse_utc`
unfoldable pub parse_utc : Timestamp → Result ℕ
parse_utc (utc t) = ok t
parse_utc (no_zone _) = err naive_timestamp
parse_utc (unreadable _) = err bad_timestamp

-- `_format_utc`
abbrev pub format_utc : ℕ → Timestamp
format_utc t = utc t

-- the first microsecond of the year 10000, which `datetime` cannot hold
abbrev pub max_instant : ℕ
max_instant = 315537897600000000

-- `value + timedelta(seconds=seconds)`
unfoldable pub add_seconds : ℕ → ℕ → Result ℕ
add_seconds t seconds =
    if leb max_instant (t + seconds * 1000000)
    then err time_overflow
    else ok (t + seconds * 1000000)

abbrev pub same_time : Timestamp → Timestamp → Bool
same_time (utc a) (utc b) = eqb a b
same_time (no_zone a) (no_zone b) = eqb a b
same_time (unreadable a) (unreadable b) = a == b
same_time _ _ = false
