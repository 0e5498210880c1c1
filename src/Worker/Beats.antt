-- ===== src/Worker/Beats.antt =====
-- `_LeaseHeartbeat` of src/pelicanbench/campaign_worker.py: the thread that renews a lease while the
-- adapter runs. Its calls are a list of ticks: when each happens, and what other workers have done to the
-- store since the call before.
use pelican_bench.Base.{ℕ, zero, suc, String, Bool, true, false, Option, none, some, List, [], ◌∷◌}
use pelican_bench.Campaign.{CampaignManifest}
use pelican_bench.Store.Result.{ok, err, Error}
use pelican_bench.Store.Time.{Timestamp}
use pelican_bench.Store.Tables.{Store, StoreLease}
use pelican_bench.Store.Journal.{Codec}
use pelican_bench.Store.Holder.{HeartbeatRequest, heartbeat_campaign_lease}

pub record HeartbeatResult : Type 0 where
  pub count : ℕ
  pub error : Option String

pub record Tick : Type 0 where
  pub now : Timestamp
  pub others : Store → Store

-- the thread's variables, and the store
pub record Beating : Type 0 where
  pub store : Store
  pub count : ℕ
  pub error : Option String

abbrev pub beat_request : StoreLease → ℕ → Timestamp → HeartbeatRequest
beat_request lease extend_seconds now = record {
  cell_id = lease.cell_id;
  worker_id = lease.worker_id;
  lease_token = lease.lease_token;
  extend_seconds = extend_seconds;
  now = now;
}

-- `error_text` is f"{type(exc).__name__}: {exc}"
module _ (d : Codec) (m : CampaignManifest) (error_text : Error → String) (lease : StoreLease)
    (extend_seconds : ℕ) where
  -- `_run`: an exception ends the thread
  unfoldable pub beat : List Tick → Beating → Beating
  beat [] b = b
  beat (t ∷ ticks) b =
      let (answer, s) =
        heartbeat_campaign_lease d m (beat_request lease extend_seconds t.now) (t.others b.store) in
      let rest = beat ticks (record { store = s; count = suc b.count; error = b.error }) in
      elim answer [
        | ok _ ↦ rest
        | err e ↦ record { store = s; count = b.count; error = some (error_text e) }
      ]

  -- `start`, what happens until `stop`, and `stop`. There is no thread where the interval is 0;
  -- `stuck` says whether there is a thread that was still alive after `join`.
  abbrev pub beaten : Bool → List Tick → Store → Beating
  beaten false ticks s = record { store = s; count = zero; error = none }
  beaten true ticks s = beat ticks (record { store = s; count = zero; error = none })

  abbrev pub stop_error : Bool → Option String → Option String
  stop_error true none = some "RuntimeError: lease heartbeat thread did not stop"
  stop_error _ error = error

  abbrev pub stopped : Bool → Beating → HeartbeatResult
  stopped stuck b = record { count = b.count; error = stop_error stuck b.error }
