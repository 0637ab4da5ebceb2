-- ===== src/Decode/Packets.antt =====
-- The arms of `decode`'s match on the opcode in src/decode.rs, grouped by subject.
pub mod Vendor
pub mod Chat
pub mod Quest
pub mod Reward
pub mod Character
pub mod Spell
pub mod Combat
pub mod World
pub mod Taxi
pub mod Update
