-- ===== src/Routes.antt =====
-- src/routes: the answers to requests for historical prices.
pub mod ReadThrough
