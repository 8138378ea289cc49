-- ===== src/Sources/Onchain.antt =====
-- src/sources/onchain: prices derived by conversions that are read on chain.
pub mod Paths
pub mod Engine
pub mod ReadBudget
