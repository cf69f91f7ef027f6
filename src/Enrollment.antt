-- ===== src/Enrollment.antt =====
-- Seat registration (backend/src/enrollment).
pub mod State
pub mod Claim
pub mod Register
pub mod Drop
pub mod Grant
pub mod Holds
pub mod Consistency
pub mod History
pub mod Keys
pub mod Guarantee
pub mod Replay
pub mod Rules
mod Examples
