-- ===== src/Security/Guarantees.antt =====
-- What holds after any further calls of the security services.
pub mod Tokens
pub mod Accounts
pub mod Rows
pub mod Keys
pub mod SignIn
pub mod Returned
pub mod Verified
pub mod Administration
pub mod Uniform
