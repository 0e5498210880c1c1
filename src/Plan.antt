-- ===== src/Plan.antt =====
-- Plans of a campaign: src/pelicanbench/prospective.py expands stages, cohorts of models and panels of
-- tasks into cells. The children hold the expansion and the proofs about it.
pub mod Prospective
pub mod Counts
pub mod Sound
pub mod Complete
