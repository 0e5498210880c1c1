-- ===== src/Tests.antt =====
-- Concrete inputs: the theorems applied to small stores, and runs of the code.
mod Samples
mod Histories
mod Calls
mod Chains
mod Canvases
mod Builds
mod Workers
mod Simulations
mod Plans
mod Challenges
