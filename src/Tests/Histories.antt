-- ===== src/Tests/Histories.antt =====
-- The theorems on histories and on leasing, at the sample store.
use pelican_bench.Base.{ℕ, ◌≡◌, ◌≢◌, refl, subst, true, some, List, [], ◌++◌, arith}
use pelican_bench.Base.Int.{pos}
use pelican_bench.Campaign.{succeeded, ready}
use pelican_bench.Store.Time.{utc}
use pelican_bench.Store.Result.{ok, ok-injective}
use pelican_bench.Store.Money.{finite, round8}
use pelican_bench.Store.Tables.{Store, CellRow, EventRow, find_cell}
use pelican_bench.Store.Lease.{lease_campaign_cells}
use pelican_bench.Store.Journal.{event_row}
use pelican_bench.Store.Outcomes.{Completed, complete_effect}
use pelican_bench.Store.Holder.{completion_draft, Completion, complete_campaign_lease}
use pelican_bench.Store.Initialise.{no_tables, first_row}
use pelican_bench.Store.Reconcile.{reconcile_campaign_store}
use pelican_bench.Store.Sound.{IsSound}
use pelican_bench.Store.Sound.Initial.{initialise-IsSound, NoneLeased}
use pelican_bench.Store.History.{
  History, lease, complete, start, more, History-reconcile, final_cell_kept, journal_grows,
  History-Writes,
}
use pelican_bench.Store.Sound.Writes.{Writes-IsSound}
use pelican_bench.Store.Sound.Holders.{InGrains}
use pelican_bench.Store.Budget.{lease-WithinBudget, lease-IsCapped, WithinBudget, IsCapped}
use pelican_bench.Tests.Samples.{codec, manifest, fresh, ask, asked, leases_of, run, cell}

none_leased : NoneLeased manifest.cells
none_leased = ground arith

-- the new store is sound
pub fresh-IsSound : IsSound codec manifest fresh
unfolding run
fresh-IsSound =
    initialise-IsSound codec manifest "2026-08-01T00:00:00Z" (utc 0) no_tables none_leased refl

initialise-IsSound_example : IsSound codec manifest fresh
unfolding run
initialise-IsSound_example =
    initialise-IsSound codec manifest "2026-08-01T00:00:00Z" (utc 0) no_tables none_leased refl

pub asked_ok :
    lease_campaign_cells codec manifest (ask "w1" 3 1000) fresh ≡ (ok (leases_of asked.0), asked.1)
unfolding run
asked_ok = refl

asked_some : leases_of asked.0 ≢ []
unfolding run
asked_some h = cc

-- A1 (50) and A3 (20) are leased, and fit the budget of 100
lease-WithinBudget_example : WithinBudget (pos 100) asked.1.cells
lease-WithinBudget_example =
    lease-WithinBudget codec manifest (ask "w1" 3 1000) (pos 100) fresh asked.1 (leases_of asked.0)
      fresh-IsSound refl asked_some asked_ok

fresh-IsCapped : IsCapped 2 fresh.cells
unfolding run
fresh-IsCapped model = ground arith

lease-IsCapped_example : IsCapped 2 asked.1.cells
lease-IsCapped_example =
    lease-IsCapped codec manifest (ask "w1" 3 1000) fresh asked.1 (leases_of asked.0) fresh-IsSound
      fresh-IsCapped asked_ok

-- the holder of A1 completes it
abbrev pub done_a1 : Completion
done_a1 = record {
  cell_id = "A1";
  worker_id = "w1";
  lease_token = "LEASE-tokw1";
  new_state = succeeded;
  reason = "canonical-artifact-retained";
  actual_cost = finite (pos 400000);
  artifact_id = some "ART-1";
  now = utc 2000;
}

grains_a1 : InGrains codec manifest done_a1.actual_cost
unfolding run
grains_a1 n e = subst (λ (c : ℕ). round8 c ≡ c) (ok-injective e) refl

abbrev pub finished : Store
finished = (complete_campaign_lease codec manifest done_a1 asked.1).1

abbrev pub again : Store
again = (lease_campaign_cells codec manifest (ask "w2" 3 70000000) finished).1

-- what A1's row is once it has succeeded
abbrev pub row_a1 : CellRow
row_a1 = record (first_row (utc 0) (cell "A1" "t1" (some (pos 50)) ready)) {
  state = succeeded;
  actual_cost = 400000;
  attempt_count = 1;
  artifact_id = some "ART-1";
  reason = some "canonical-artifact-retained";
  updated_at = utc 2000;
}

succeeded_a1 : find_cell "A1" finished.cells ≡ some row_a1
unfolding run
succeeded_a1 = refl

first_calls : History codec manifest fresh finished
first_calls = more (more start (lease (ask "w1" 3 1000))) (complete done_a1 grains_a1)

finished-IsSound : IsSound codec manifest finished
finished-IsSound =
    Writes-IsSound codec manifest fresh-IsSound
      (History-Writes codec manifest fresh-IsSound first_calls)

-- the audit after leasing and completing
History-reconcile_example : (reconcile_campaign_store codec manifest finished).valid ≡ true
History-reconcile_example = History-reconcile codec manifest fresh-IsSound first_calls

-- a second worker leases, after A3 has expired, and A1 stays as it is
final_cell_kept_example : find_cell "A1" again.cells ≡ some row_a1
final_cell_kept_example =
    final_cell_kept codec manifest "A1" row_a1 finished-IsSound
      (more start (lease (ask "w2" 3 70000000))) succeeded_a1 refl

journal_grows_example : (newer : List EventRow) × (again.events ≡ newer ++ finished.events)
journal_grows_example =
    journal_grows codec manifest finished-IsSound (more start (lease (ask "w2" 3 70000000)))

-- the event of that completion
abbrev pub done_event : EventRow
done_event = event_row codec manifest (completion_draft done_a1 400000 row_a1) asked.1.events

pub done_ok : complete_campaign_lease codec manifest done_a1 asked.1 ≡ (ok done_event, finished)
unfolding run
done_ok = refl

complete_effect_example : Completed done_a1 asked.1 done_event finished
complete_effect_example = complete_effect codec manifest done_a1 asked.1 finished done_event done_ok
