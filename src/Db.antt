-- ===== src/Db.antt =====
-- src/db: stored prices and the repair queue, as tables and the statements that the code sends.
pub mod Prices
pub mod PriceStore
pub mod PriceReads
pub mod RepairQueue
