-- ===== src/Http.antt =====
-- The HTTP layer: requests, the router, and the redirect handlers.
pub mod Types
pub mod Router
pub mod Redirect
