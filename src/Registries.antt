-- ===== src/Registries.antt =====
-- src/registries: which source's price is taken.
pub mod SourceRegistry
