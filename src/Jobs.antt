-- ===== src/Jobs.antt =====
-- The transfers that a provider process has under way.
pub mod Pending
pub mod Ranges
pub mod Counts
pub mod Watch
pub mod Disconnect
