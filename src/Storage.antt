-- ===== src/Storage.antt =====
-- The stores: the link repository and the link cache of the running server, and the in-memory
-- back ends of the newer storage interfaces.
pub mod LinkRepository
pub mod Models
pub mod CacheStore
pub mod MetadataRepository
pub mod RateLimiter
pub mod ClickEvents
