-- ===== src/Tests/Calls.antt =====
-- The theorems on single calls, at the sample store.
use pelican_bench.Base.{◌⊎◌, ◌≡◌, refl, subst, ℕ, false, none, some, arith}
use pelican_bench.Base.Int.{pos}
use pelican_bench.Campaign.{ready, leased}
use pelican_bench.Store.Time.{utc}
use pelican_bench.Store.Result.{Result, ok, err, ok-injective}
use pelican_bench.Store.Money.{finite, round8}
use pelican_bench.Store.Sound.Holders.{InGrains}
use pelican_bench.Store.Tables.{Store, StoreLease, CellRow, EventRow, find_cell}
use pelican_bench.Store.Journal.{event_row}
use pelican_bench.Store.Lease.{lease_campaign_cells}
use pelican_bench.Store.Holder.{
  HeartbeatRequest, extended_lease, Completion, complete_campaign_lease, heartbeat_campaign_lease,
}
use pelican_bench.Store.Requeue.{RequeueRequest, requeue_draft, requeue_failed_cell}
use pelican_bench.Store.Initialise.{first_row}
use pelican_bench.Store.Reconcile.{reconcile_campaign_store}
use pelican_bench.Store.Sound.{IsSound}
use pelican_bench.Store.Sound.Writes.{Writes-IsSound}
use pelican_bench.Store.History.{lease, start, more, History-Writes}
use pelican_bench.Store.History.Anew.{LeasedAnew}
use pelican_bench.Store.Outcomes.Once.{complete_once}
use pelican_bench.Store.Outcomes.Heartbeat.{Renewed, heartbeat_effect}
use pelican_bench.Store.Stale.{requeue_leased-invalid}
use pelican_bench.Store.Exclusive.Held.{AllHeld, lease-AllHeld}
use pelican_bench.Store.Exclusive.Running.{Running, lease_campaign_cells-Running}
use pelican_bench.Store.Tamper.{Collision, columns_of, same_hash-same_events}
use pelican_bench.Tests.Samples.{codec, manifest, fresh, ask, asked, leases_of, run, cell}
use pelican_bench.Tests.Histories.{fresh-IsSound, asked_ok, done_a1, done_event}

lease-AllHeld_example : AllHeld 3 (leases_of asked.0) asked.1.cells
lease-AllHeld_example =
    lease-AllHeld codec manifest (ask "w1" 3 1000) fresh asked.1 (leases_of asked.0) fresh-IsSound
      asked_ok

asked-IsSound : IsSound codec manifest asked.1
asked-IsSound =
    Writes-IsSound codec manifest fresh-IsSound
      (History-Writes codec manifest fresh-IsSound (more start (lease (ask "w1" 3 1000))))

-- the row of A1 while it is leased
abbrev leased_a1 : CellRow
leased_a1 = record (first_row (utc 0) (cell "A1" "t1" (some (pos 50)) ready)) {
  state = leased;
  attempt_count = 1;
  lease_owner = some "w1";
  lease_token = some "LEASE-tokw1";
  leased_at = some (utc 1000);
  lease_expires_at = some (utc 60001000);
  reason = some "worker-lease:w1";
  updated_at = utc 1000;
}

leased_a1_there : find_cell "A1" asked.1.cells ≡ some leased_a1
unfolding run
leased_a1_there = refl

lease_a1_runs : Running (utc 2000) leased_a1
unfolding run
lease_a1_runs = record {
  live = refl;
  now_value = 2000;
  at = refl;
  expiry = 60001000;
  expires = refl;
  later = omega arith;
}

-- a second worker asks while A1 is leased
lease_campaign_cells-Running_example :
    find_cell "A1" (lease_campaign_cells codec manifest (ask "w2" 3 2000) asked.1).1.cells
    ≡ some leased_a1
lease_campaign_cells-Running_example =
    lease_campaign_cells-Running codec manifest (ask "w2" 3 2000) "A1" leased_a1 asked.1
      asked-IsSound leased_a1_there lease_a1_runs

-- A1 is given back, leased by another worker, and completed by that one.
abbrev given_back : Completion
given_back = record done_a1 { new_state = ready; artifact_id = none; actual_cost = finite (pos 0) }

free_grains : InGrains codec manifest given_back.actual_cost
unfolding run
free_grains n e = subst (λ (c : ℕ). round8 c ≡ c) (ok-injective e) refl

abbrev idle : Store
idle = (complete_campaign_lease codec manifest given_back asked.1).1

abbrev leased_again : Store
leased_again = (lease_campaign_cells codec manifest (ask "w2" 3 3000) idle).1

abbrev done_again : Completion
done_again = record done_a1 { worker_id = "w2"; lease_token = "LEASE-tokw2"; now = utc 4000 }

abbrev event_after : Result EventRow × Store → EventRow
event_after (ok e, _) = e
event_after (err _, _) = done_event

abbrev back_event : EventRow
back_event = event_after (complete_campaign_lease codec manifest given_back asked.1)

abbrev second_event : EventRow
second_event = event_after (complete_campaign_lease codec manifest done_again leased_again)

back_ok : complete_campaign_lease codec manifest given_back asked.1 ≡ (ok back_event, idle)
unfolding run
back_ok = refl

second_ok :
    complete_campaign_lease codec manifest done_again leased_again
    ≡ (ok second_event, (complete_campaign_lease codec manifest done_again leased_again).1)
unfolding run
second_ok = refl

complete_once_example : LeasedAnew "A1" idle leased_again
complete_once_example =
    complete_once codec manifest given_back done_again back_event second_event asked-IsSound
      free_grains back_ok (more start (lease (ask "w2" 3 3000))) refl second_ok

abbrev beat_a1 : HeartbeatRequest
beat_a1 = record {
  cell_id = "A1";
  worker_id = "w1";
  lease_token = "LEASE-tokw1";
  extend_seconds = 90;
  now = utc 2000;
}

abbrev after_beat : Store
after_beat = (heartbeat_campaign_lease codec manifest beat_a1 asked.1).1

abbrev beaten_lease : StoreLease
beaten_lease = extended_lease beat_a1 (utc 90002000) leased_a1

beat_ok : heartbeat_campaign_lease codec manifest beat_a1 asked.1 ≡ (ok beaten_lease, after_beat)
unfolding run
beat_ok = refl

heartbeat_effect_example : Renewed beat_a1 asked.1 beaten_lease after_beat
heartbeat_effect_example =
    heartbeat_effect codec manifest beat_a1 asked.1 after_beat beaten_lease beat_ok

abbrev requeue_a1 : RequeueRequest
requeue_a1 = record { cell_id = "A1"; reason = "operator"; worker_id = none; now = utc 2000 }

abbrev requeued : Store
requeued = (requeue_failed_cell codec manifest requeue_a1 asked.1).1

abbrev requeued_event : EventRow
requeued_event = event_row codec manifest (requeue_draft requeue_a1 leased_a1) asked.1.events

requeued_ok : requeue_failed_cell codec manifest requeue_a1 asked.1 ≡ (ok requeued_event, requeued)
unfolding run
requeued_ok = refl

requeue_leased-invalid_example : (reconcile_campaign_store codec manifest requeued).valid ≡ false
requeue_leased-invalid_example =
    requeue_leased-invalid codec manifest requeue_a1 asked.1 requeued requeued_event leased_a1
      asked-IsSound leased_a1_there refl requeued_ok

-- the journals of two stores that were made by the same calls
same_hash-same_events_example :
    Collision codec ⊎ (columns_of asked.1.events ≡ columns_of asked.1.events)
unfolding run
same_hash-same_events_example =
    same_hash-same_events codec manifest asked.1.events asked.1.events refl refl refl
