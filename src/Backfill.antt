-- ===== src/Backfill.antt =====
-- src/backfill: filling closed days without a price.
pub mod Matcher
pub mod Ranges
pub mod Finalize
pub mod Manifest
