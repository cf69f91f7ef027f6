-- ===== src/Documents.antt =====
-- backend/src/documents and backend/src/records/transcript.rs: requests for documents, their approval
-- or rejection, the snapshots, and the worker that generates the artifacts.
pub mod State
pub mod Requests
pub mod Review
pub mod Worker
pub mod Logs
pub mod Layout
pub mod Lifecycle
mod Examples
