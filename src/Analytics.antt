-- ===== src/Analytics.antt =====
-- Click analytics: the events, the bounded queues, the worker that drains one, the repository that
-- aggregates, and the cleaning of header values.
pub mod Events
pub mod Sanitizer
pub mod LegacyQueue
pub mod Queue
pub mod Worker
pub mod Recording
pub mod Retention
