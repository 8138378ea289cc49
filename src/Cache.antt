-- ===== src/Cache.antt =====
-- src/cache: how long answers may be kept.
pub mod Headers
