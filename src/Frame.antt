-- ===== src/Frame.antt =====
-- Data frames: the payloads they carry, the frame header of fhdr.go and the payload of macpayload.go.
pub mod Element
pub mod Control
pub mod Header
pub mod Body
