-- ===== src/Chain.antt =====
-- The portable event chain of src/pelicanbench/campaign.py: a tuple of events, oldest first, each of
-- which holds the hash of the one before. The children hold the replay and the append, the leasing,
-- and the proofs about these.
pub mod Events
pub mod Leasing
pub mod Append
pub mod Extension
pub mod Replayed
pub mod Selected
