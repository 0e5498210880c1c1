-- ===== src/Worker.antt =====
-- src/pelicanbench/campaign_worker.py: a worker that leases cells of a campaign store, runs them
-- and completes the leases. The children hold the outcome of a run, the records that are kept, the
-- batch, the reconciliation of the records with the store, and the proofs.
pub mod Outcome
pub mod Records
pub mod Beats
pub mod Settlement
pub mod Batch
pub mod Costs
pub mod Safe
pub mod Leases
pub mod Matching
pub mod Kept
pub mod Accounts
pub mod Paired
pub mod Summary
pub mod Files
pub mod Reconcile
pub mod Indexed
pub mod Agreement
pub mod Audit
