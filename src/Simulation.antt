-- ===== src/Simulation.antt =====
-- The loops that drive the drawing canvas: src/pelicanbench/simulation.py replays a list of actions,
-- src/pelicanbench/autonomous.py asks a policy for them. The children hold the two loops and the
-- proofs about each.
pub mod Replay
pub mod Agent
pub mod Faults
pub mod Runs
pub mod Retraced
pub mod Scripts
