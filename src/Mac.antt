-- ===== src/Mac.antt =====
-- mac_commands.go: the MAC commands, their payloads, and the registry that sizes them.
pub mod Link
pub mod Settings
pub mod Status
pub mod Channel
pub mod ClassB
pub mod Session
pub mod Payload
pub mod Registry
pub mod Command
