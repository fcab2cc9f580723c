-- ===== src/App.antt =====
-- The application layer: the command service behind the REST handlers and the command line, and
-- the store that connects it to the link repository.
pub mod Types
pub mod StoreLaws
pub mod Service
pub mod Serialize
pub mod Legacy
pub mod LegacyStats
pub mod LinkService
