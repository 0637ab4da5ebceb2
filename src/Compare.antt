-- ===== src/Compare.antt =====
-- src/compare.rs, but for the alignment: when two recorded fields match.
pub mod Rules
pub mod Equality
pub mod State
pub mod Ruled
pub mod Fields
pub mod Bijection
pub mod Growth
pub mod Enough
pub mod Same
pub mod Keys
pub mod Pairs
pub mod Sound
pub mod Deviations
pub mod Report
pub mod Finished
