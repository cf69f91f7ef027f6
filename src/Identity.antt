-- ===== src/Identity.antt =====
-- backend/src/identity_access: sessions and the throttle of logins.
pub mod Sessions
pub mod Throttle
pub mod Lifetime
pub mod Accounts
pub mod Csrf
mod Examples
