-- ===== src/Security.antt =====
-- The security services: control sets, passwords, users, sessions, service clients, the audit log,
-- and the services built on them.
pub mod Effects
pub mod ControlSet
pub mod Passwords
pub mod Users
pub mod Sessions
pub mod AuditLog
pub mod Broker
pub mod Management
pub mod Clients
pub mod History
pub mod Guarantees
