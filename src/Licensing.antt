-- ===== src/Licensing.antt =====
-- backend/src/licensing: the license of the deployment, the gate that every request passes, and the
-- changes of the license by the platform and by signed files.
pub mod State
pub mod Gate
pub mod Signed
pub mod Service
pub mod Recovery
pub mod Staleness
mod Examples
