-- ===== src/Store.antt =====
-- src/pelicanbench/campaign_store.py: the transactional store of a campaign. The children hold the
-- tables, the operations on them, and the proofs about these.
pub mod Time
pub mod Tables
pub mod Result
pub mod Money
pub mod Journal
pub mod Queries
pub mod Reclaim
pub mod Lease
pub mod Holder
pub mod Requeue
pub mod Reconcile
pub mod Initialise
pub mod Status
pub mod Cells
pub mod Sound
pub mod Loops
pub mod Sums
pub mod Budget
pub mod Outcomes
pub mod Stale
pub mod Complete
pub mod Tamper
pub mod Exclusive
pub mod History
