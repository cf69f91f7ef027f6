-- ===== src/Records.antt =====
-- Academic records (backend/src/records).
pub mod State
pub mod Grades
pub mod Completion
pub mod Gpa
mod Examples
