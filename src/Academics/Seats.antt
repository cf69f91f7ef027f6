-- ===== src/Academics/Seats.antt =====
-- What the registrar's change of a capacity (backend/src/academics/service.rs) means for enrollment.
use ubedtech.Prelude.{
  ℕ, ◌+◌, ◌≡◌, refl, Bool, true, false, some, arith, leb, ◌==◌, if◌then◌else◌, count_where,
  Option-cases, Bool-cases, inl, inr,
}
use ubedtech.Shared.Actor.{Actor}
use ubedtech.Shared.Error.{Result, AppError, ok, err, conflict}
use ubedtech.Enrollment.State.{Db, Section, SectionCapacity, active_in}
use ubedtech.Enrollment.Consistency.{IsConsistent}
use ubedtech.Enrollment.History.{Reaches, Reaches-IsConsistent}
use ubedtech.Enrollment.Guarantee.{IsGuaranteed, Keeps-IsGuaranteed}
use ubedtech.Enrollment.Guarantee.Operations.{Reaches-Keeps}
use ubedtech.Academics.State.{ℤ, I32, AcademicsDb, require_can_manage_academics}
use ubedtech.Academics.Sections.{set_section_capacity, write_capacity, non_negative, capacity_set}

-- The section, whose row was `c`, has `n` seats, and all else of seats and enrollments is as it was.
pub record IsResized (id n : ℕ) (c : SectionCapacity) (x y : AcademicsDb) : Type 0 where
  pub resized :
      y.registration.section_capacity id
      ≡ some (record { capacity = n; enrolled_count = c.enrolled_count; version = c.version + 1 })
  pub others :
      (s : ℕ)
      → y.registration.section_capacity s ≡ (
          if s == id then y.registration.section_capacity id else x.registration.section_capacity s)
  pub same_enrollment : y.registration.enrollment ≡ x.registration.enrollment

-- What becomes of the change, where the active enrollments fit and where they do not.
abbrev pub Answer :
    ℕ → ℕ → SectionCapacity → AcademicsDb → Bool → Result AppError AcademicsDb → Type 0
Answer id n c x true m = (y : AcademicsDb) × (m ≡ ok y) × IsResized id n c x y
Answer id n c x false m = m ≡ err (conflict "capacity cannot drop below current enrollment")

capacity_set-IsResized :
    (actor : Actor) (id n : ℕ) (c : SectionCapacity) (x : AcademicsDb)
    → IsResized id n c x (capacity_set actor id n c x)
capacity_set-IsResized actor id n c x = record {
  resized = ground arith;
  others = λ s. ground arith;
  same_enrollment = refl;
}

-- At every state that registrations, drops and the registrar lead to from a consistent one in which
-- every section has its row of capacity, a registrar can give a section of the institution exactly
-- those of the capacities from 0 to the largest 32-bit integer that hold its active enrollments. The section then has
-- that capacity and its next version, and no other seat and no enrollment is touched; the refusal of
-- a smaller capacity is a conflict.
pub set_section_capacity_lem :
    (actor : Actor) (id n : ℕ) (capacity : I32) (s : Db) (x : AcademicsDb) (section : Section)
    → IsConsistent s
    → IsGuaranteed s
    → Reaches s x.registration
    → require_can_manage_academics actor ≡ ok tt
    → x.registration.section id ≡ some section
    → section.institution_id ≡ actor.institution_id
    → capacity.value ≡ ℤ.pos n
    → (c : SectionCapacity) × (x.registration.section_capacity id ≡ some c)
      × Answer id n c x
          (leb (count_where (active_in id) x.registration.enrollment) n)
          (set_section_capacity actor id capacity x)
unfolding set_section_capacity write_capacity non_negative
set_section_capacity_lem actor id n capacity s x section v g run allowed there own is_n =
    let consistent = Reaches-IsConsistent v run in
    let covered = Keeps-IsGuaranteed s x.registration (Reaches-Keeps run) g in
    elim (Option-cases (x.registration.section_capacity id)) [
      | inl missing ↦ absurd (covered.guaranteed id section there missing)
      | inr (c, found) ↦
          let counted = consistent.counted id c found in
          (
            c,
            found,
            elim (Bool-cases (leb (count_where (active_in id) x.registration.enrollment) n)) [
              | inl fits ↦
                  rw fits (
                    capacity_set actor id n c x,
                    ground arith,
                    capacity_set-IsResized actor id n c x,
                  )
              | inr full ↦ rw full (ground arith)
            ],
          )
    ]
