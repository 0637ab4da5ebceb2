-- ===== src/Trace.antt =====
-- src/trace.rs: traces of scrubbed packets.
pub mod Recorded
pub mod Depth
pub mod Packets
pub mod Opening
