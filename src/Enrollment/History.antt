-- ===== src/Enrollment/History.antt =====
-- The committed states of the database under concurrent transactions of the enrollment service, and
-- what holds of them all.
use ubedtech.Prelude.{ℕ, String, ◌≤◌, ◌≡◌, some, arith, count_where}
use ubedtech.Shared.Actor.{Actor}
use ubedtech.Shared.Error.{ok}
use ubedtech.Enrollment.State.{
  Db, Env, SectionCapacity, RegisterCommand, EnrollmentReceipt, GrantOverrideCommand, active_in,
}
use ubedtech.Enrollment.Register.{register_for}
use ubedtech.Enrollment.Drop.{drop_for}
use ubedtech.Enrollment.Grant.{grant_override}
use ubedtech.Enrollment.Holds.{place_hold, release_hold, set_academic_status}
use ubedtech.Enrollment.Consistency.{IsConsistent, SameSeats, SameSeats-IsConsistent}
use ubedtech.Enrollment.Consistency.Registration.{register_for-IsConsistent}
use ubedtech.Enrollment.Consistency.Dropping.{section_of, Extends, drop_for-IsConsistent}
use ubedtech.Enrollment.Consistency.Administration.{
  Administers-Effect, Effect-IsConsistent, Effect-enrollment,
}
use ubedtech.Academics.State.{AcademicsDb}
use ubedtech.Academics.Changes.{Administers}
use ubedtech.Enrollment.Consistency.Extension.{
  register_for-Extends, drop_for-Extends, grant_override-SameSeats, place_hold-SameSeats,
  release_hold-SameSeats, set_academic_status-SameSeats,
}

-- Transactions of the registrar on terms, courses and sections come between them too.
-- `Reaches s d`: the committed state `d` follows from `s` by transactions. One that reads before
-- it locks began at a state `b`; others may have committed between `b` and the state `a` that it
-- finds behind its lock.
pub data Reaches : Db → Db → Type 0 where
  here : {s : Db} → Reaches s s
  registered :
      {s b a : Db} (env : Env) (actor : Actor) (student_id : ℕ) (command : RegisterCommand)
      (out : EnrollmentReceipt × Db)
      → Reaches s b
      → Reaches b a
      → register_for env actor student_id command b a ≡ ok out
      → Reaches s out.1
  unregistered :
      {s b a d : Db} (env : Env) (actor : Actor) (student_id id : ℕ)
      → Reaches s b
      → Reaches b a
      → drop_for env actor student_id id b a ≡ ok d
      → Reaches s d
  granted :
      {s a : Db} (env : Env) (actor : Actor) (student_id : ℕ) (command : GrantOverrideCommand)
      (out : ℕ × Db)
      → Reaches s a
      → grant_override env actor student_id command a ≡ ok out
      → Reaches s out.1
  held :
      {s a d : Db} (actor : Actor) (student_id term_id : ℕ) (flag reason : String)
      → Reaches s a
      → place_hold actor student_id term_id flag reason a ≡ ok d
      → Reaches s d
  released :
      {s a d : Db} (actor : Actor) (student_id term_id : ℕ) (flag : String)
      → Reaches s a
      → release_hold actor student_id term_id flag a ≡ ok d
      → Reaches s d
  restated :
      {s a d : Db} (actor : Actor) (student_id : ℕ) (status : String)
      → Reaches s a
      → set_academic_status actor student_id status a ≡ ok d
      → Reaches s d
  administered :
      {s : Db} (x y : AcademicsDb)
      → Reaches s x.registration
      → Administers x y
      → Reaches s y.registration

SameSeats-Extends : (b a : Db) → SameSeats b a → Extends b a
unfolding section_of
SameSeats-Extends b a h id s e = rw (← h.1) e

same_enrollment-Extends : (b a : Db) → a.enrollment ≡ b.enrollment → Extends b a
unfolding section_of
same_enrollment-Extends b a h id s e = rw h e

-- Along any history no enrollment is lost or moved to another section.
Reaches-Extends : {s d : Db} → Reaches s d → Extends s d
Reaches-Extends here id k e = e
Reaches-Extends (registered {b = b} {a = a} env actor student_id command out r q h) id k e =
    register_for-Extends env actor student_id command b a out h id k
      (Reaches-Extends q id k (Reaches-Extends r id k e))
Reaches-Extends (unregistered {b = b} {a = a} {d = d} env actor student_id j r q h) id k e =
    drop_for-Extends env actor student_id j b a d h id k
      (Reaches-Extends q id k (Reaches-Extends r id k e))
Reaches-Extends (granted {a = a} env actor student_id command out r h) id k e =
    SameSeats-Extends a out.1 (grant_override-SameSeats env actor student_id command a out h) id k
      (Reaches-Extends r id k e)
Reaches-Extends (held {a = a} {d = d} actor student_id term_id flag reason r h) id k e =
    SameSeats-Extends a d (place_hold-SameSeats actor student_id term_id flag reason a d h) id k
      (Reaches-Extends r id k e)
Reaches-Extends (released {a = a} {d = d} actor student_id term_id flag r h) id k e =
    SameSeats-Extends a d (release_hold-SameSeats actor student_id term_id flag a d h) id k
      (Reaches-Extends r id k e)
Reaches-Extends (restated {a = a} {d = d} actor student_id status r h) id k e =
    SameSeats-Extends a d (set_academic_status-SameSeats actor student_id status a d h) id k
      (Reaches-Extends r id k e)
Reaches-Extends (administered x y r step) id k e =
    same_enrollment-Extends x.registration y.registration
      (Effect-enrollment x y (Administers-Effect x y step)) id k (Reaches-Extends r id k e)

-- Every state that concurrent transactions commit from a consistent one is consistent: the counter
-- of each section that has one is the number of its active enrollments and no larger than its
-- capacity, a student is active in a section at most once, and keys are unique.
pub Reaches-IsConsistent : {s d : Db} → IsConsistent s → Reaches s d → IsConsistent d
Reaches-IsConsistent v here = v
Reaches-IsConsistent v (registered {b = b} {a = a} env actor student_id command out r q h) =
    register_for-IsConsistent env actor student_id command b a out
      (Reaches-IsConsistent (Reaches-IsConsistent v r) q) h
Reaches-IsConsistent v (unregistered {b = b} {a = a} {d = d} env actor student_id j r q h) =
    let start = Reaches-IsConsistent v r in
    drop_for-IsConsistent env actor student_id j b a d start (Reaches-IsConsistent start q)
      (Reaches-Extends q) h
Reaches-IsConsistent v (granted {a = a} env actor student_id command out r h) =
    SameSeats-IsConsistent a out.1 (grant_override-SameSeats env actor student_id command a out h)
      (Reaches-IsConsistent v r)
Reaches-IsConsistent v (held {a = a} {d = d} actor student_id term_id flag reason r h) =
    SameSeats-IsConsistent a d (place_hold-SameSeats actor student_id term_id flag reason a d h)
      (Reaches-IsConsistent v r)
Reaches-IsConsistent v (released {a = a} {d = d} actor student_id term_id flag r h) =
    SameSeats-IsConsistent a d (release_hold-SameSeats actor student_id term_id flag a d h)
      (Reaches-IsConsistent v r)
Reaches-IsConsistent v (restated {a = a} {d = d} actor student_id status r h) =
    SameSeats-IsConsistent a d (set_academic_status-SameSeats actor student_id status a d h)
      (Reaches-IsConsistent v r)
Reaches-IsConsistent v (administered x y r step) =
    Effect-IsConsistent x y (Administers-Effect x y step) (Reaches-IsConsistent v r)

-- No section is ever oversold: at every committed state, at most as many enrollments are active in
-- a section as its capacity row allows.
pub active-le-capacity :
    {s d : Db} (section_id : ℕ) (c : SectionCapacity)
    → IsConsistent s
    → Reaches s d
    → d.section_capacity section_id ≡ some c
    → count_where (active_in section_id) d.enrollment ≤ c.capacity
active-le-capacity section_id c v r h =
    let w = Reaches-IsConsistent v r in
    omega (arith, w.counted section_id c h, w.within section_id c h)
