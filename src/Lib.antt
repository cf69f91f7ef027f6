-- ===== src/Lib.antt =====
-- The University of Belize education platform: its services for enrollment, records, documents,
-- licensing and identity (backend/src).
--
-- Each service is a set of transactions on tables that its migrations declare; actors come to it
-- through HTTP handlers, which are not part of this development. The services meet in the database: a
-- registration reads the grades that the records service has published (student_course_completion) and
-- the terms, sections and capacities that the registrar has made, an approval of a document takes a
-- transcript snapshot, and every request first passes the license gate.
--
-- Files. Definitions stand beside the theorems of their component in a tree of modules:
--   Prelude: Boolean tests, tables as lists of rows with the SQL statements as functions (find_where,
--     update_where, count_where), and the lemmas on them (Counts).
--   Shared: backend/src/shared/actor.rs (Actor), backend/src/shared/error.rs (Error),
--     backend/src/audit.rs (Audit), and what is used of Rust's str (Text).
--   Enrollment: backend/src/enrollment/service.rs, types.rs and policy.rs beside it. State: the tables
--     of backend/migrations/0003_enrollment.sql. Register: register_self, register_for. Drop:
--     drop_self, drop_for. Claim: claim_override, stamp_overrides_consumed. Grant: grant_override.
--     Holds: place_hold, release_hold, set_academic_status. Keys: what an idempotency key names.
--   Records: backend/src/records/grades.rs. Grades: save_draft, correct_grade, publish_section and the
--     trigger of backend/migrations/0013_grade_history.sql. Completion: the view of
--     backend/migrations/0004_records.sql. Gpa: the sums of own_term_gpas.
--   Documents: backend/src/documents/service.rs and worker.rs, backend/src/records/transcript.rs.
--     Requests: request_for_self, downloadable. Review: approve, reject, and the snapshot's create and
--     generate (generate_snapshot). Worker: reap_stale, run_once (claim_job, finish_job), generate,
--     complete (complete_job), fail (fail_job). Logs: truncate_for_log. Layout: wrap_pdf_line.
--     Lifecycle: what holds of all.
--   Licensing: backend/src/licensing/gate.rs and middleware.rs (Gate), signed_license.rs (Signed),
--     service.rs (Service): set_status and import_signed, each as its commit (commit_status,
--     commit_import) and the replacement of the gate's snapshot (install).
--   Identity: backend/src/identity_access/sessions.rs (Sessions: create, resolve, revoke; Lifetime),
--     and backend/src/identity_access/service.rs: the login throttle (Throttle), and below Accounts
--     login, change_own_password, reset_password, suspend_user, assign_role and revoke_role. Csrf:
--     backend/src/identity_access/csrf.rs.
--   Academics: backend/src/academics/service.rs. State: the tables beside those of enrollment.
--     Catalogue: create_term, update_term_windows, create_course, add_prerequisite. Sections:
--     create_section, set_section_capacity, and the trigger of
--     backend/migrations/0010_capacity_guarantee.sql. Teaching: add_meeting, assign_instructor.
--     Changes: an operation as a step, which Enrollment.History.Reaches takes between registrations;
--     Enrollment.Guarantee is about the trigger.
--   Institution: backend/src/institution/service.rs: create_event, delete_event, update_settings and
--     set_document_type_enabled, whose table the documents service reads.
--   Config: backend/src/config.rs, from_source.
-- Each component has a module Examples with tests on concrete data.
--
-- How the code is read:
--   - A UUID and an instant are natural numbers; UUIDs are only compared. Grade points are hundredths,
--     credit hours tenths of an hour (hundredths in the command that makes a course). Versions and
--     counters are natural numbers; the one bound that a write can meet, the capacity of a section at
--     the largest 32-bit integer, is a guard. The capacity in a command is a 32-bit integer with its
--     range.
--   - A transaction is a function from the committed state to a result with the next state: an error
--     leaves the state as it was, since the transaction is rolled back. What an operation reads before
--     it begins its transaction, or before the lock that serialises it, is read from a state of its
--     own, and the theorems let others commit between the two. A login or a change of a password may
--     have read at any state at all.
--   - The environment of an operation gives its clock, the time of its transaction, its fresh ids and
--     the rows that others have locked (SKIP LOCKED).
--   - A constraint of the database that a statement can violate is a guard that gives
--     AppError.database; that a new id is not taken is such a guard, a conflict where the code maps
--     unique violations to one, and so is the foreign key of a registration's lock row to its student.
--     Values that a CHECK admits are data types.
--   - ORDER BY with LIMIT 1 is a search for the least row. There is no fuel: every loop is structural
--     recursion on a table or a text.
--   - What officers, students and workers do over time is an inductive relation on states
--     (Enrollment.History.Reaches, Records.Grades.Versions.GradeReaches,
--     Documents.Lifecycle.Runs.Runs, Licensing.Staleness.Changes, Identity.Lifetime.Serves,
--     Identity.Accounts.Runs.Attends).
--
-- Not modelled: HTTP adapters, pages and navigation; lists and reports, which are read-only queries;
-- the details of an audit event; the quotient of a grade point average; the content of a
-- transcript snapshot and the layout of its PDF but for the wrapping of lines. The PDF library with
-- the file store, and the libraries for Argon2, Ed25519, SHA-256, hexadecimal and JSON, are
-- parameters, and so is the double precision arithmetic of PostgreSQL in the sums of own_term_gpas.
mod Prelude
pub mod Shared
pub mod Enrollment
pub mod Records
pub mod Documents
pub mod Licensing
pub mod Identity
pub mod Academics
pub mod Institution
pub mod Config
