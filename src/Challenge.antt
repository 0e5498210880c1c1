-- ===== src/Challenge.antt =====
-- Sealed challenges: src/pelicanbench/challenge.py commits to tasks by salted hashes, and verifies what is
-- revealed of them. The children hold the three operations and the proofs about them.
pub mod Commitment
pub mod Opening
pub mod Binding
