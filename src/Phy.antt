-- ===== src/Phy.antt =====
-- The physical payload of phypayload.go: its bytes, its integrity codes and its encryption.
pub mod MType
pub mod Primitives
pub mod Packet
pub mod Mic
pub mod Keystream
pub mod Methods
pub mod JoinAccept
