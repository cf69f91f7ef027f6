-- ===== src/Enrollment/Guarantee.antt =====
-- The guarantee of backend/migrations/0010_capacity_guarantee.sql: every section has its row of
-- capacity, whatever the registrar and the students do, so that a registration never meets a section
-- without one.
pub mod Operations
pub mod Registering
use mathlib.Core.Path.{subst}
use ubedtech.Prelude.{
  ℕ, String, ◌+◌, ◌≡◌, ◌≢◌, refl, sym, ◌∙◌, Bool, true, false, Option, none, some, List, [], ◌∷◌,
  ◌++◌, arith, ◌==◌, upsert, Option-cases, Bool-cases, inl, inr, exists_where, if◌then◌else◌,
}
use ubedtech.Shared.Actor.{Actor}
use ubedtech.Shared.Error.{ok, err, integrity, Result-cases}
use ubedtech.Enrollment.State.{
  Db, Env, Section, SectionCapacity, RegisterCommand, EnrollmentReceipt, GrantOverrideCommand,
  EnrollError, app, OverrideType, Denial, RegistrationContext, active_for,
}
use ubedtech.Enrollment.Claim.{claim_override, claim_if}
use ubedtech.Enrollment.Register.{
  register_for, register_locked, register_new, check_rules, take_seat, write_registration,
  ensure_lock_row, registration_context, check_window, require_can_register_for,
  existing_enrollment, is_insertable, new_enrollment, claim_key, is_held, term_state,
  prerequisites_met, has_time_conflict, already_completed,
}
use ubedtech.Enrollment.Drop.{drop_for, drop_context, write_drop}
use ubedtech.Enrollment.Grant.{grant_override}
use ubedtech.Enrollment.Holds.{place_hold, release_hold, set_academic_status, write_flags}
use ubedtech.Enrollment.Consistency.Registration.{register_for_inv, register_new_inv}
use ubedtech.Enrollment.Consistency.Dropping.{drop_locked_inv}
use ubedtech.Enrollment.Consistency.Untouched.{Untouched}
use ubedtech.Enrollment.Consistency.Administration.{
  Effect, none_on_seats, on_capacity, on_section, Administers-Effect, set_section_capacity_inv,
  create_section_inv, update_capacity_inv,
}
use ubedtech.Academics.State.{AcademicsDb}
use ubedtech.Academics.Sections.{insert_section}
use ubedtech.Enrollment.History.{
  Reaches, here, registered, unregistered, granted, held, released, restated, administered,
}

pub record IsGuaranteed (db : Db) : Type 0 where
  pub guaranteed : (s : ℕ) (x : Section) → db.section s ≡ some x → db.section_capacity s ≢ none

-- Sections stay, and so do rows of capacity; a section that is new has one.
pub record Keeps (b a : Db) : Type 0 where
  pub sections : (s : ℕ) → b.section s ≢ none → a.section s ≢ none
  pub seats : (s : ℕ) → b.section_capacity s ≢ none → a.section_capacity s ≢ none
  pub covered : (s : ℕ) → a.section s ≢ none → a.section_capacity s ≡ none → b.section s ≢ none

Keeps-refl : (d : Db) → Keeps d d
Keeps-refl d = record { sections = λ s h. h; seats = λ s h. h; covered = λ s h e. h }

Keeps-trans : (c b a : Db) → Keeps c b → Keeps b a → Keeps c a
Keeps-trans c b a k l = record {
  sections = λ s h. l.sections s (k.sections s h);
  seats = λ s h. l.seats s (k.seats s h);
  covered = λ s h e. k.covered s (l.covered s h e) (elim (Option-cases (b.section_capacity s)) [
    | inl missing ↦ missing
    | inr (row, found) ↦ absurd (l.seats s (ground arith) e)
  ]);
}

pub Keeps-IsGuaranteed : (b a : Db) → Keeps b a → IsGuaranteed b → IsGuaranteed a
Keeps-IsGuaranteed b a k g = record {
  guaranteed = λ s x found missing. elim (Option-cases (b.section s)) [
    | inl absent ↦ k.covered s (ground arith) missing absent
    | inr (y, there) ↦ k.seats s (g.guaranteed s y there) missing
  ];
}

-- One row of capacity is written, and no section.
seat-Keeps :
    (b a : Db) (id : ℕ) (c : SectionCapacity)
    → a.section ≡ b.section
    → a.section_capacity ≡ upsert id c b.section_capacity
    → Keeps b a
seat-Keeps b a id c sections caps = record {
  sections = λ s h. rw sections h;
  seats = λ s h. rw caps (ground (arith, h));
  covered = λ s h e. rw (← sections) h;
}

same-Keeps :
    (b a : Db) → a.section ≡ b.section → a.section_capacity ≡ b.section_capacity → Keeps b a
same-Keeps b a sections caps = record {
  sections = λ s h. rw sections h;
  seats = λ s h. rw caps h;
  covered = λ s h e. rw (← sections) h;
}

ensure_lock_row-Keeps :
    (student_id term_id : ℕ) (db : Db) → Keeps db (ensure_lock_row student_id term_id db)
unfolding ensure_lock_row
ensure_lock_row-Keeps student_id term_id db =
    same-Keeps db (ensure_lock_row student_id term_id db) refl refl
