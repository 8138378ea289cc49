-- ===== src/Utils.antt =====
-- src/utils: days, chunks, token keys and query parameters, and the values of JavaScript that the
-- code inspects.
pub mod Time
pub mod Collections
pub mod Text
pub mod Chains
pub mod Number
pub mod Json
pub mod Validation
