-- ===== src/Band.antt =====
-- The package band: channels, data rates and channel masks of the regional bands.
pub mod Channel
pub mod Lookup
pub mod LinkAdr
pub mod Us915
pub mod CfList
pub mod Regions
pub mod As923
pub mod Region
