-- ===== src/Campaign.antt =====
-- src/pelicanbench/campaign.py: the states of a cell, and the manifest that a campaign is run from.
mod States
mod Manifest
pub use States.*
pub use Manifest.*
