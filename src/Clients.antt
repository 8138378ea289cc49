-- ===== src/Clients.antt =====
-- src/clients: the RPC client's block search and the HTTP client.
pub mod CappedMap
pub mod BlockSearch
pub mod RateLimiter
pub mod HttpClient
