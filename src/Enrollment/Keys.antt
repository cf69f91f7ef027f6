-- ===== src/Enrollment/Keys.antt =====
-- The enrollment under an idempotency key: no transaction that follows loses it or changes which it is
-- (the unique index of `enrollment` on institution, student and key).
use mathlib.Core.Path.{subst}
use ubedtech.Prelude.{
  ℕ, ◌≡◌, refl, sym, ◌∙◌, true, false, Option, none, some, List, [], ◌∷◌, arith, find_where,
  exists_where, update_where, inl, inr,
}
use ubedtech.Shared.Actor.{Actor}
use ubedtech.Shared.Error.{ok, Result-cases}
use ubedtech.Enrollment.State.{
  Db, Env, SectionCapacity, EnrollmentRow, RegisterCommand, EnrollmentReceipt, has_id, has_key,
}
use ubedtech.Enrollment.Register.{
  is_insertable, write_registration, new_enrollment, register_for, ensure_lock_row,
  require_can_register_for,
}
use ubedtech.Enrollment.Drop.{drop_context, mark_dropped, write_drop, drop_for}
use ubedtech.Enrollment.Consistency.{SameSeats}
use ubedtech.Enrollment.Consistency.Registration.{register_for_inv, register_new_inv}
use ubedtech.Enrollment.Consistency.Dropping.{drop_locked_inv}
use ubedtech.Enrollment.Consistency.Administration.{Administers-Effect, Effect-enrollment}
use ubedtech.Enrollment.Consistency.Extension.{
  grant_override-SameSeats, place_hold-SameSeats, release_hold-SameSeats,
  set_academic_status-SameSeats,
}
use ubedtech.Enrollment.History.{
  Reaches, here, registered, unregistered, granted, held, released, restated, administered,
}

-- What of an enrollment no transaction changes: its id, its section and when it was registered.
abbrev pub Identity : Type 0
Identity = ℕ × ℕ × ℕ

unfoldable pub key_in : ℕ → ℕ → ℕ → List EnrollmentRow → Option Identity
key_in i student_id key rows = elim (find_where (has_key i student_id key) rows) [
  | none ↦ none
  | some e ↦ some (e.id, e.section_id, e.registered_at)
]

-- Every key names the same enrollment still.
abbrev pub KeepsKeys : Db → Db → Type 0
KeepsKeys b a =
    (i student_id key : ℕ) (t : Identity)
    → key_in i student_id key b.enrollment ≡ some t
    → key_in i student_id key a.enrollment ≡ some t

key_in-dropped :
    (tx_now id i student_id key : ℕ) (rows : List EnrollmentRow)
    → key_in i student_id key (update_where (has_id id) (mark_dropped tx_now) rows)
      ≡ key_in i student_id key rows
unfolding key_in
key_in-dropped tx_now id i student_id key [] = refl
key_in-dropped tx_now id i student_id key (x ∷ xs) =
    ground (arith, key_in-dropped tx_now id i student_id key xs)

key_in_absent :
    (i student_id key : ℕ) (rows : List EnrollmentRow)
    → exists_where (has_key i student_id key) rows ≡ false
    → key_in i student_id key rows ≡ none
unfolding key_in
key_in_absent i student_id key [] h = refl
key_in_absent i student_id key (x ∷ xs) h = ground (arith, key_in_absent i student_id key xs)

write_registration-KeepsKeys :
    (env : Env) (actor : Actor) (owner : ℕ) (command : RegisterCommand) (seat : SectionCapacity)
    (ids : List ℕ) (db : Db)
    → is_insertable (new_enrollment env actor owner command) db.enrollment ≡ true
    → KeepsKeys db (write_registration env actor owner command seat ids db)
unfolding write_registration is_insertable key_in
write_registration-KeepsKeys env actor owner command seat ids db fresh i student_id key t h =
    ground (arith, key_in_absent actor.institution_id owner command.idempotency_key db.enrollment)

same_enrollment-KeepsKeys : (b a : Db) → a.enrollment ≡ b.enrollment → KeepsKeys b a
same_enrollment-KeepsKeys b a same i student_id key t h = rw same h

register_for-KeepsKeys :
    (env : Env) (actor : Actor) (owner : ℕ) (command : RegisterCommand) (before after : Db)
    (out : EnrollmentReceipt × Db)
    → register_for env actor owner command before after ≡ ok out
    → KeepsKeys after out.1
unfolding ensure_lock_row
register_for-KeepsKeys env actor owner command before after out h =
    elim (register_for_inv env actor owner command before after out h) [
      | inl same ↦ same_enrollment-KeepsKeys after out.1 (rw same refl)
      | inr (context, inl same) ↦ same_enrollment-KeepsKeys after out.1 (rw same refl)
      | inr (context, inr (used, made)) ↦ λ i student_id key t e.
          let (r, passed, fresh, written) =
            register_new_inv env actor owner command context used
              (ensure_lock_row owner context.term_id after) out made in
          subst (λ (o : EnrollmentReceipt × Db). key_in i student_id key o.1.enrollment ≡ some t)
            (sym written)
            (write_registration-KeepsKeys env actor owner command r.0 r.1
              (ensure_lock_row owner context.term_id after) fresh i student_id key t e)
    ]

drop_for-KeepsKeys :
    (env : Env) (actor : Actor) (owner id : ℕ) (before after d : Db)
    → drop_for env actor owner id before after ≡ ok d
    → KeepsKeys after d
unfolding drop_for write_drop ensure_lock_row
drop_for-KeepsKeys env actor owner id before after d h i student_id key t e =
    elim (Result-cases (require_can_register_for actor owner)) [
      | inr (x, refused) ↦ absurd (ground arith)
      | inl (_, allowed) ↦ elim (Result-cases (drop_context actor.institution_id owner id before)) [
        | inr (x, missing) ↦ absurd (ground arith)
        | inl (row, known) ↦
            let (_, _, _, _, seat, _, ids, written) =
              drop_locked_inv env actor owner id row (ensure_lock_row owner row.term_id after) d
                (ground arith) in
            subst (λ (k : Db). key_in i student_id key k.enrollment ≡ some t) (sym written)
              (key_in-dropped env.tx_now id i student_id key after.enrollment ∙ e)
      ]
    ]

SameSeats-KeepsKeys : (b a : Db) → SameSeats b a → KeepsKeys b a
SameSeats-KeepsKeys b a h = same_enrollment-KeepsKeys b a (sym h.1)

-- Along any history a key that was registered names the same enrollment.
pub Reaches-KeepsKeys : {s d : Db} → Reaches s d → KeepsKeys s d
Reaches-KeepsKeys here i k key t e = e
Reaches-KeepsKeys (registered {b = b} {a = a} env actor owner command out r q h) i k key t e =
    register_for-KeepsKeys env actor owner command b a out h i k key t
      (Reaches-KeepsKeys q i k key t (Reaches-KeepsKeys r i k key t e))
Reaches-KeepsKeys (unregistered {b = b} {a = a} {d = d} env actor owner j r q h) i k key t e =
    drop_for-KeepsKeys env actor owner j b a d h i k key t
      (Reaches-KeepsKeys q i k key t (Reaches-KeepsKeys r i k key t e))
Reaches-KeepsKeys (granted {a = a} env actor owner command out r h) i k key t e =
    SameSeats-KeepsKeys a out.1 (grant_override-SameSeats env actor owner command a out h) i k key t
      (Reaches-KeepsKeys r i k key t e)
Reaches-KeepsKeys (held {a = a} {d = d} actor owner term_id flag reason r h) i k key t e =
    SameSeats-KeepsKeys a d (place_hold-SameSeats actor owner term_id flag reason a d h) i k key t
      (Reaches-KeepsKeys r i k key t e)
Reaches-KeepsKeys (released {a = a} {d = d} actor owner term_id flag r h) i k key t e =
    SameSeats-KeepsKeys a d (release_hold-SameSeats actor owner term_id flag a d h) i k key t
      (Reaches-KeepsKeys r i k key t e)
Reaches-KeepsKeys (restated {a = a} {d = d} actor owner status r h) i k key t e =
    SameSeats-KeepsKeys a d (set_academic_status-SameSeats actor owner status a d h) i k key t
      (Reaches-KeepsKeys r i k key t e)
Reaches-KeepsKeys (administered x y r step) i k key t e =
    same_enrollment-KeepsKeys x.registration y.registration
      (Effect-enrollment x y (Administers-Effect x y step)) i k key t
      (Reaches-KeepsKeys r i k key t e)
