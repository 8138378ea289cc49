-- ===== src/Sources/Defillama.antt =====
-- src/sources/defillama: the aggregator's samples.
pub mod Match
