-- ===== src/Sources.antt =====
-- src/sources: where prices come from.
pub mod Defillama
pub mod Onchain
pub mod Base
pub mod Chainlink
