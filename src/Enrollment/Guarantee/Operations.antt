-- ===== src/Enrollment/Guarantee/Operations.antt =====
-- No operation of backend/src/enrollment/service.rs or backend/src/academics/service.rs takes a section
-- or its row of capacity away.
use mathlib.Core.Path.{subst}
use ubedtech.Prelude.{
  ℕ, String, ◌+◌, ◌≡◌, refl, sym, List, arith, ◌==◌, upsert, Bool-cases, inl, inr,
}
use ubedtech.Shared.Actor.{Actor}
use ubedtech.Shared.Error.{ok, Result-cases}
use ubedtech.Enrollment.State.{
  Db, Env, Section, SectionCapacity, RegisterCommand, EnrollmentReceipt, GrantOverrideCommand,
}
use ubedtech.Enrollment.Register.{
  register_for, write_registration, ensure_lock_row, require_can_register_for,
}
use ubedtech.Enrollment.Drop.{drop_for, drop_context, write_drop}
use ubedtech.Enrollment.Grant.{grant_override}
use ubedtech.Enrollment.Holds.{place_hold, release_hold, set_academic_status, write_flags}
use ubedtech.Enrollment.Consistency.Registration.{register_for_inv, register_new_inv}
use ubedtech.Enrollment.Consistency.Dropping.{drop_locked_inv}
use ubedtech.Enrollment.Consistency.Administration.{
  Effect, none_on_seats, on_capacity, on_section, Administers-Effect, set_section_capacity_inv,
  create_section_inv, update_capacity_inv,
}
use ubedtech.Academics.State.{AcademicsDb}
use ubedtech.Academics.Sections.{insert_section}
use ubedtech.Enrollment.History.{
  Reaches, here, registered, unregistered, granted, held, released, restated, administered,
}
use ubedtech.Enrollment.Guarantee.{
  Keeps, Keeps-refl, Keeps-trans, seat-Keeps, same-Keeps, ensure_lock_row-Keeps,
}

write_registration-Keeps :
    (env : Env) (actor : Actor) (student_id : ℕ) (command : RegisterCommand)
    (seat : SectionCapacity) (ids : List ℕ) (db : Db)
    → Keeps db (write_registration env actor student_id command seat ids db)
unfolding write_registration
write_registration-Keeps env actor student_id command seat ids db =
    seat-Keeps db (write_registration env actor student_id command seat ids db) command.section_id
      seat refl refl

register_for-Keeps :
    (env : Env) (actor : Actor) (student_id : ℕ) (command : RegisterCommand) (before after : Db)
    (out : EnrollmentReceipt × Db)
    → register_for env actor student_id command before after ≡ ok out
    → Keeps after out.1
register_for-Keeps env actor student_id command before after out h =
    elim (register_for_inv env actor student_id command before after out h) [
      | inl same ↦ subst (Keeps after) (sym same) (Keeps-refl after)
      | inr (context, inl same) ↦
          subst (Keeps after) (sym same) (ensure_lock_row-Keeps student_id context.term_id after)
      | inr (context, inr (used, made)) ↦
          let db = ensure_lock_row student_id context.term_id after in
          let (r, passed, fresh, written) =
            register_new_inv env actor student_id command context used db out made in
          subst (λ (o : EnrollmentReceipt × Db). Keeps after o.1) (sym written)
            (Keeps-trans after db (write_registration env actor student_id command r.0 r.1 db)
              (ensure_lock_row-Keeps student_id context.term_id after)
              (write_registration-Keeps env actor student_id command r.0 r.1 db))
    ]

write_drop-Keeps :
    (env : Env) (actor : Actor) (id section_id : ℕ) (seat : SectionCapacity) (ids : List ℕ)
    (db : Db)
    → Keeps db (write_drop env actor id section_id seat ids db)
unfolding write_drop
write_drop-Keeps env actor id section_id seat ids db =
    seat-Keeps db (write_drop env actor id section_id seat ids db) section_id seat refl refl

drop_for-Keeps :
    (env : Env) (actor : Actor) (student_id id : ℕ) (before after d : Db)
    → drop_for env actor student_id id before after ≡ ok d
    → Keeps after d
unfolding drop_for
drop_for-Keeps env actor student_id id before after d h =
    elim (Result-cases (require_can_register_for actor student_id)) [
      | inr (x, refused) ↦ absurd (ground arith)
      | inl (_, allowed) ↦
          elim (Result-cases (drop_context actor.institution_id student_id id before)) [
            | inr (x, missing) ↦ absurd (ground arith)
            | inl (row, known) ↦
                let db = ensure_lock_row student_id row.term_id after in
                let (_, _, _, _, seat, _, ids, written) =
                  drop_locked_inv env actor student_id id row db d (ground arith) in
                subst (Keeps after) (sym written) (
                  Keeps-trans after db (write_drop env actor id row.section_id seat ids db)
                    (ensure_lock_row-Keeps student_id row.term_id after)
                    (write_drop-Keeps env actor id row.section_id seat ids db))
          ]
    ]

grant_override-Keeps :
    (env : Env) (actor : Actor) (student_id : ℕ) (command : GrantOverrideCommand) (db : Db)
    (out : ℕ × Db)
    → grant_override env actor student_id command db ≡ ok out
    → Keeps db out.1
unfolding grant_override
grant_override-Keeps env actor student_id command db out h =
    same-Keeps db out.1 (ground arith) (ground arith)

place_hold-Keeps :
    (actor : Actor) (student_id term_id : ℕ) (flag reason : String) (db d : Db)
    → place_hold actor student_id term_id flag reason db ≡ ok d
    → Keeps db d
unfolding place_hold write_flags
place_hold-Keeps actor student_id term_id flag reason db d h =
    same-Keeps db d (ground arith) (ground arith)

release_hold-Keeps :
    (actor : Actor) (student_id term_id : ℕ) (flag : String) (db d : Db)
    → release_hold actor student_id term_id flag db ≡ ok d
    → Keeps db d
unfolding release_hold write_flags
release_hold-Keeps actor student_id term_id flag db d h =
    same-Keeps db d (ground arith) (ground arith)

set_academic_status-Keeps :
    (actor : Actor) (student_id : ℕ) (status : String) (db d : Db)
    → set_academic_status actor student_id status db ≡ ok d
    → Keeps db d
unfolding set_academic_status
set_academic_status-Keeps actor student_id status db d h =
    same-Keeps db d (ground arith) (ground arith)

-- A new section is covered by the trigger.
create-Keeps :
    (x z : AcademicsDb) (id : ℕ) (c : SectionCapacity) (row : Section)
    → ((s : ℕ) → z.registration.section_capacity s ≡ upsert id c x.registration.section_capacity s)
    → z.registration.section ≡ upsert id row x.registration.section
    → Keeps x.registration z.registration
create-Keeps x z id c row caps sections = record {
  sections = λ s h. rw sections (ground (arith, h));
  seats = λ s h. ground (arith, h, caps s);
  covered = λ s h e gone. elim (Bool-cases (s == id)) [
    | inl own ↦ ground (arith, caps s)
    | inr other ↦ h (rw sections (ground arith))
  ];
}

Effect-Keeps : (x y : AcademicsDb) → Effect x y → Keeps x.registration y.registration
unfolding insert_section
Effect-Keeps x y (none_on_seats same) =
    same-Keeps x.registration y.registration same.same_section (sym same.same_seats.0)
Effect-Keeps x y (on_capacity actor id capacity h) =
    let (seats, c, found, fits, written) = set_section_capacity_inv actor id capacity x y h in
    subst (λ (d : AcademicsDb). Keeps x.registration d.registration) (sym written)
      (seat-Keeps x.registration _ id (record c { capacity = seats; version = c.version + 1 }) refl
        refl)
Effect-Keeps x y (on_section new_id actor command h) =
    let (code, seats, z, done, written) = create_section_inv new_id actor command x y h in
    let (c, fits, caps, rows, sections, kept, fresh) =
      update_capacity_inv new_id actor.institution_id seats code command x z done in
    subst (λ (d : AcademicsDb). Keeps x.registration d.registration) (sym written)
      (Keeps-trans x.registration z.registration _ (create-Keeps x z new_id c _ caps sections)
        (same-Keeps z.registration _ refl refl))

pub Reaches-Keeps : {s d : Db} → Reaches s d → Keeps s d
Reaches-Keeps {s} here = Keeps-refl s
Reaches-Keeps {s} (registered {b = b} {a = a} env actor student_id command out r q h) =
    Keeps-trans s b out.1 (Reaches-Keeps r) (
      Keeps-trans b a out.1 (Reaches-Keeps q)
        (register_for-Keeps env actor student_id command b a out h))
Reaches-Keeps {s} {d} (unregistered {b = b} {a = a} env actor student_id j r q h) =
    Keeps-trans s b d (Reaches-Keeps r)
      (Keeps-trans b a d (Reaches-Keeps q) (drop_for-Keeps env actor student_id j b a d h))
Reaches-Keeps {s} (granted {a = a} env actor student_id command out r h) =
    Keeps-trans s a out.1 (Reaches-Keeps r)
      (grant_override-Keeps env actor student_id command a out h)
Reaches-Keeps {s} {d} (held {a = a} actor student_id term_id flag reason r h) =
    Keeps-trans s a d (Reaches-Keeps r)
      (place_hold-Keeps actor student_id term_id flag reason a d h)
Reaches-Keeps {s} {d} (released {a = a} actor student_id term_id flag r h) =
    Keeps-trans s a d (Reaches-Keeps r) (release_hold-Keeps actor student_id term_id flag a d h)
Reaches-Keeps {s} {d} (restated {a = a} actor student_id status r h) =
    Keeps-trans s a d (Reaches-Keeps r) (set_academic_status-Keeps actor student_id status a d h)
Reaches-Keeps {s} (administered x y r step) =
    Keeps-trans s x.registration y.registration (Reaches-Keeps r)
      (Effect-Keeps x y (Administers-Effect x y step))
