-- ===== src/Metrics.antt =====
-- The labels of a metric sample in src/metrics.rs: reading them, and writing them in their order.
pub mod Labels
pub mod Order
pub mod Escapes
pub mod Shorter
pub mod Loop
pub mod RoundTrip
pub mod Parsed
pub mod Samples
pub mod Keys
pub mod Lines
pub mod Inserted
pub mod Scraped
pub mod Window
pub mod Kept
