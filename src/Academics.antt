-- ===== src/Academics.antt =====
-- The academic structure: terms, courses, sections, meetings, prerequisites and instructors
-- (backend/src/academics).
pub mod State
pub mod Catalogue
pub mod Sections
pub mod Teaching
pub mod Changes
pub mod Seats
mod Examples
