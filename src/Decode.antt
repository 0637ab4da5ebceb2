-- ===== src/Decode.antt =====
-- src/decode.rs: the typed packet decoder.
pub mod Field
pub mod Body
pub mod Stable
pub mod Movement
pub mod Packets
pub mod Dispatch
pub mod Framing
pub mod Compressed
