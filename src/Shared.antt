-- ===== src/Shared.antt =====
-- What every service shares: the actor and its roles (backend/src/shared/actor.rs), the error type
-- (backend/src/shared/error.rs) and the audit record (backend/src/audit.rs).
pub mod Actor
pub mod Error
pub mod Audit
pub mod Text
