-- ===== src/Applayer.antt =====
-- The packages of applayer: the commands of the application layer.
pub mod Command
pub mod GroupMask
pub mod ClockSync
pub mod Fragmentation
pub mod MulticastSetup
