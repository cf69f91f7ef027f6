-- ===== src/Enrollment/Consistency/Administration.antt =====
-- The operations of backend/src/academics/service.rs keep the tables of enrollment consistent.
use mathlib.Core.Path.{subst}
use ubedtech.Prelude.{
  ℕ, String, ◌+◌, ◌≤◌, ◌≡◌, refl, sym, none, some, arith, upsert, count_where, Option-cases, inl,
  inr,
}
use ubedtech.Shared.Actor.{Actor}
use ubedtech.Shared.Error.{ok, Result-cases}
use ubedtech.Enrollment.State.{Db, SectionCapacity, active_in}
use ubedtech.Enrollment.Consistency.{IsConsistent, SameSeats-IsConsistent}
use ubedtech.Enrollment.Consistency.Untouched.{
  Untouched, create_term-Untouched, create_course-Untouched, add_meeting-Untouched,
  add_prerequisite-Untouched, assign_instructor-Untouched, update_term_windows-Untouched,
}
use ubedtech.Academics.State.{I32, AcademicsDb, CreateSectionCommand, write_audit, required_trimmed}
use ubedtech.Academics.Sections.{
  create_section, set_section_capacity, insert_section, section_capacity_guarantee, update_capacity,
  write_capacity, non_negative, capacity_set,
}
use ubedtech.Academics.Changes.{
  Administers, term_created, course_created, section_created, capacity_changed, meeting_added,
  prerequisite_added, instructor_assigned, windows_updated,
}

-- A section is given a row whose counter is the number of its active enrollments.
recount-IsConsistent :
    (a d : Db) (id : ℕ) (new : SectionCapacity)
    → IsConsistent a
    → new.enrolled_count ≡ count_where (active_in id) a.enrollment
    → new.enrolled_count ≤ new.capacity
    → ((s : ℕ) → d.section_capacity s ≡ upsert id new a.section_capacity s)
    → d.enrollment ≡ a.enrollment
    → IsConsistent d
recount-IsConsistent a d id new v same fits caps rows = record {
  counted = λ s c h. rw rows (ground (arith, v.counted s c, caps s));
  within = λ s c h. ground (arith, v.within s c, caps s);
  placed = λ s h. rw rows (ground (arith, v.placed s, caps s));
  single = λ st s. rw rows (v.single st s);
  keyed = λ i st k. rw rows (v.keyed i st k);
  identified = λ id. rw rows (v.identified id);
}

-- What setting a capacity writes.
pub set_section_capacity_inv :
    (actor : Actor) (id : ℕ) (capacity : I32) (x y : AcademicsDb)
    → set_section_capacity actor id capacity x ≡ ok y
    → (seats : ℕ) × (c : SectionCapacity) × (x.registration.section_capacity id ≡ some c)
      × (c.enrolled_count ≤ seats)
      × (y ≡ capacity_set actor id seats c x)
unfolding set_section_capacity write_capacity
set_section_capacity_inv actor id capacity x y h = elim (Result-cases (non_negative capacity)) [
  | inr (e, negative) ↦ absurd (ground arith)
  | inl (seats, valid) ↦ elim (Option-cases (x.registration.section_capacity id)) [
    | inl missing ↦ absurd (ground arith)
    | inr (c, found) ↦ (seats, c, found, ground arith, ground arith)
  ]
]

set_section_capacity-IsConsistent :
    (actor : Actor) (id : ℕ) (capacity : I32) (x y : AcademicsDb)
    → IsConsistent x.registration
    → set_section_capacity actor id capacity x ≡ ok y
    → IsConsistent y.registration
set_section_capacity-IsConsistent actor id capacity x y v h =
    let (seats, c, found, fits, written) = set_section_capacity_inv actor id capacity x y h in
    subst (λ (d : AcademicsDb). IsConsistent d.registration) (sym written)
      (recount-IsConsistent x.registration (capacity_set actor id seats c x).registration id
        (record c { capacity = seats; version = c.version + 1 }) v (v.counted id c found) fits
        (λ s. refl) refl)

-- What the creation of a section writes: its row, and one of its capacity, by the trigger.
pub create_section_inv :
    (new_id : ℕ) (actor : Actor) (command : CreateSectionCommand) (x y : AcademicsDb)
    → create_section new_id actor command x ≡ ok (new_id, y)
    → (code : String) × (seats : ℕ) × (z : AcademicsDb) × (update_capacity new_id seats
          (insert_section new_id actor.institution_id code command x)
        ≡ ok z)
      × (y ≡ write_audit actor "academics.section_created" "section" new_id z)
unfolding create_section
create_section_inv new_id actor command x y h =
    elim (Result-cases (required_trimmed command.section_code "section code")) [
      | inr (e, blank) ↦ absurd (ground arith)
      | inl (code, named) ↦ elim (Result-cases (non_negative command.capacity)) [
        | inr (e, negative) ↦ absurd (ground arith)
        | inl (seats, valid) ↦
            elim (Result-cases (
              update_capacity new_id seats
                (insert_section new_id actor.institution_id code command x))) [
                  | inr (e, violated) ↦ absurd (ground arith)
                  | inl (z, done) ↦ (code, seats, z, done, ground arith)
                ]
      ]
    ]

module _ (id institution_id seats : ℕ) (code : String) (command : CreateSectionCommand)
    (x z : AcademicsDb)
    (done : update_capacity id seats (insert_section id institution_id code command x) ≡ ok z) where
  -- The row of a new section, whether or not the trigger found one.
  pub update_capacity_inv :
      (c : SectionCapacity) × (c.enrolled_count ≤ c.capacity)
      × ((s : ℕ)
          → z.registration.section_capacity s ≡ upsert id c x.registration.section_capacity s)
      × (z.registration.enrollment ≡ x.registration.enrollment)
      × (z.registration.section
          ≡ (insert_section id institution_id code command x).registration.section)
      × ((old : SectionCapacity)
          → x.registration.section_capacity id ≡ some old
          → c.enrolled_count ≡ old.enrolled_count)
      × (x.registration.section_capacity id ≡ none → c.enrolled_count ≡ 0)
  unfolding update_capacity insert_section section_capacity_guarantee
  update_capacity_inv = elim (Option-cases (x.registration.section_capacity id)) [
    | inl missing ↦ (
      record { capacity = seats; enrolled_count = 0; version = 1 },
      ground arith,
      λ s. ground arith,
      ground arith,
      ground arith,
      λ old h. ground arith,
      λ h. refl,
    )
    | inr (c, found) ↦ (
      record c { capacity = seats },
      ground arith,
      λ s. ground arith,
      ground arith,
      ground arith,
      λ old h. ground arith,
      λ h. absurd (ground arith),
    )
  ]

  update_capacity-IsConsistent : IsConsistent x.registration → IsConsistent z.registration
  update_capacity-IsConsistent v =
      let (c, fits, caps, rows, _, kept, fresh) = update_capacity_inv in
      let same : c.enrolled_count ≡ count_where (active_in id) x.registration.enrollment =
        elim (Option-cases (x.registration.section_capacity id)) [
          | inl missing ↦ ground (arith, fresh missing, v.placed id missing)
          | inr (old, found) ↦ ground (arith, kept old found, v.counted id old found)
        ] in
      recount-IsConsistent x.registration z.registration id c v same fits caps rows

create_section-IsConsistent :
    (new_id : ℕ) (actor : Actor) (command : CreateSectionCommand) (x y : AcademicsDb)
    → IsConsistent x.registration
    → create_section new_id actor command x ≡ ok (new_id, y)
    → IsConsistent y.registration
create_section-IsConsistent new_id actor command x y v h =
    let (code, seats, z, done, written) = create_section_inv new_id actor command x y h in
    subst (λ (d : AcademicsDb). IsConsistent d.registration) (sym written)
      (SameSeats-IsConsistent z.registration
        (write_audit actor "academics.section_created" "section" new_id z).registration (refl, refl)
        (update_capacity-IsConsistent new_id actor.institution_id seats code command x z done v))

-- What an operation does to seats and sections: it leaves them alone, or sets a capacity, or makes a
-- section.
pub data Effect (x y : AcademicsDb) : Type 0 where
  none_on_seats : Untouched x.registration y.registration → Effect x y
  on_capacity :
      (actor : Actor) (id : ℕ) (capacity : I32)
      → set_section_capacity actor id capacity x ≡ ok y
      → Effect x y
  on_section :
      (new_id : ℕ) (actor : Actor) (command : CreateSectionCommand)
      → create_section new_id actor command x ≡ ok (new_id, y)
      → Effect x y

pub Administers-Effect : (x y : AcademicsDb) → Administers x y → Effect x y
Administers-Effect x y (term_created new_id actor command h) =
    none_on_seats (create_term-Untouched new_id actor command x (new_id, y) h)
Administers-Effect x y (course_created new_id actor command h) =
    none_on_seats (create_course-Untouched new_id actor command x (new_id, y) h)
Administers-Effect x y (section_created new_id actor command h) = on_section new_id actor command h
Administers-Effect x y (capacity_changed actor id capacity h) = on_capacity actor id capacity h
Administers-Effect x y (meeting_added new_id actor section_id command h) =
    none_on_seats (add_meeting-Untouched new_id actor section_id command x (new_id, y) h)
Administers-Effect x y (prerequisite_added actor course_id command h) =
    none_on_seats (add_prerequisite-Untouched actor course_id command x y h)
Administers-Effect x y (instructor_assigned actor section_id user_id h) =
    none_on_seats (assign_instructor-Untouched actor section_id user_id x y h)
Administers-Effect x y (windows_updated actor term_id command h) =
    none_on_seats (update_term_windows-Untouched actor term_id command x y h)

pub Effect-IsConsistent :
    (x y : AcademicsDb) → Effect x y → IsConsistent x.registration → IsConsistent y.registration
Effect-IsConsistent x y (none_on_seats same) v =
    SameSeats-IsConsistent x.registration y.registration same.same_seats v
Effect-IsConsistent x y (on_capacity actor id capacity h) v =
    set_section_capacity-IsConsistent actor id capacity x y v h
Effect-IsConsistent x y (on_section new_id actor command h) v =
    create_section-IsConsistent new_id actor command x y v h

-- No operation of the registrar's touches an enrollment.
pub Effect-enrollment :
    (x y : AcademicsDb) → Effect x y → y.registration.enrollment ≡ x.registration.enrollment
Effect-enrollment x y (none_on_seats same) = sym same.same_seats.1
Effect-enrollment x y (on_capacity actor id capacity h) =
    let (seats, c, found, fits, written) = set_section_capacity_inv actor id capacity x y h in
    rw written refl
Effect-enrollment x y (on_section new_id actor command h) =
    let (code, seats, z, done, written) = create_section_inv new_id actor command x y h in
    let (c, fits, caps, rows, _, kept, fresh) =
      update_capacity_inv new_id actor.institution_id seats code command x z done in
    rw written rows
