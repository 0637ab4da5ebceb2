-- ===== src/Scenario.antt =====
-- src/scenario.rs: the packets that a scenario sends, and how its Characters come and go.
pub mod Packets
pub mod Bits
pub mod Guids
pub mod Bound
pub mod Steps
pub mod Fixtures
pub mod Members
pub mod Entered
pub mod Connections
pub mod Sessions
pub mod Observations
pub mod Declared
pub mod Classified
