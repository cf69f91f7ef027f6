-- ===== src/Documents/Lifecycle/Review.antt =====
-- Approving, rejecting and taking snapshots keep what holds of requests, decisions and jobs
-- (backend/src/documents/service.rs, backend/src/records/transcript.rs).
use mathlib.Core.Path.{subst}
use ubedtech.Prelude.{
  ℕ, String, ◌≡◌, ◌⊎◌, refl, sym, Bool, true, false, ◌||◌, Option, none, some, List, arith,
  find_where, exists_where, update_where, is_none, Option-cases, Bool-cases, inl, inr,
}
use ubedtech.Prelude.Counts.{
  find-holds, find-weaken, find-update, count-update_same, count-exists, find_none-exists,
}
use ubedtech.Shared.Actor.{Actor}
use ubedtech.Shared.Text.{trim}
use ubedtech.Shared.Error.{ok, Result-cases}
use ubedtech.Documents.State.{
  RequestStatus, DocumentRequest, TranscriptSnapshot, DocumentsDb, DocEnv, has_request_id,
  has_job_id,
}
use ubedtech.Documents.Review.{
  needs_snapshot, moved_to, set_approved, create, generate_snapshot, snapshot_for, new_approval,
  new_job, write_approval, is_reviewable, approve, write_rejection, reject,
}
use ubedtech.Documents.Lifecycle.{request_at, IsSound}

-- The state with other snapshots.
abbrev pub with_snapshots : List TranscriptSnapshot → DocumentsDb → DocumentsDb
with_snapshots snapshots db = record db { transcript_snapshot = snapshots }

pub approve_inv :
    (env : DocEnv) (actor : Actor) (request_id : ℕ) (note : String) (db d : DocumentsDb)
    → approve env actor request_id note db ≡ ok d
    → (r : DocumentRequest) × (snapshot_id : Option ℕ) × (snapshots : List TranscriptSnapshot)
      × (find_where (is_reviewable actor request_id) db.document_request ≡ some r)
      × ((needs_snapshot r.document_type || is_none snapshot_id) ≡ true)
      × (exists_where (has_job_id env.job_id) db.document_job ≡ false)
      × (d
          ≡ write_approval env actor request_id
              (trim note)
              snapshot_id
              (with_snapshots snapshots db))
unfolding approve snapshot_for create
approve_inv env actor request_id note db d h =
    elim (Option-cases (find_where (is_reviewable actor request_id) db.document_request)) [
      | inl missing ↦ absurd (ground arith)
      | inr (r, found) ↦ elim (Result-cases (snapshot_for env actor r db)) [
        | inr (e, q) ↦ absurd (ground arith)
        | inl (taken, q) ↦ elim (Bool-cases (needs_snapshot r.document_type)) [
          | inl needs ↦ (
            r,
            some env.snapshot_id,
            taken.1.transcript_snapshot,
            found,
            ground arith,
            ground arith,
            ground arith,
          )
          | inr without ↦ (
            r,
            none,
            taken.1.transcript_snapshot,
            found,
            ground arith,
            ground arith,
            ground arith,
          )
        ]
      ]
    ]

abbrev pub is_hit : (DocumentRequest → Bool) → Option DocumentRequest → Bool
is_hit p none = false
is_hit p (some r) = p r

-- The lookup of a request after an update that keeps ids.
pub request-cases :
    (p : DocumentRequest → Bool) (f : DocumentRequest → DocumentRequest) (id : ℕ)
    (rows : List DocumentRequest)
    → ((r : DocumentRequest) → (f r).id ≡ r.id)
    → ((find_where (has_request_id id) (update_where p f rows)
          ≡ find_where (has_request_id id) rows)
        × (is_hit p (find_where (has_request_id id) rows) ≡ false))
      ⊎ ((r : DocumentRequest) × (p r ≡ true)
          × (r.id ≡ id)
          × (find_where (has_request_id id) rows ≡ some r)
          × (find_where (has_request_id id) (update_where p f rows) ≡ some (f r)))
request-cases p f id rows keeps =
    let moved = find-update p (has_request_id id) f rows (λ r. ground (arith, keeps r)) in
    elim (Option-cases (find_where (has_request_id id) rows)) [
      | inl absent ↦ inl (ground arith, ground arith)
      | inr (r, found) ↦
          let own = find-holds (has_request_id id) rows found in
          elim (Bool-cases (p r)) [
            | inl hit ↦ inr (r, hit, ground arith, found, ground arith)
            | inr other ↦ inl (ground arith, ground arith)
          ]
    ]

-- The request that a review finds is the one of its id.
reviewed_request :
    (actor : Actor) (request_id : ℕ) (db : DocumentsDb) (r : DocumentRequest)
    → IsSound db
    → find_where (is_reviewable actor request_id) db.document_request ≡ some r
    → request_at request_id db ≡ some r
reviewed_request actor request_id db r v found =
    find-weaken (is_reviewable actor request_id) (has_request_id request_id) db.document_request
      (λ x h. ground arith) found (v.keyed request_id)

write_approval-IsSound :
    (env : DocEnv) (actor : Actor) (request_id : ℕ) (note : String) (snapshot_id : Option ℕ)
    (db : DocumentsDb) (r : DocumentRequest)
    → IsSound db
    → find_where (is_reviewable actor request_id) db.document_request ≡ some r
    → (needs_snapshot r.document_type || is_none snapshot_id) ≡ true
    → exists_where (has_job_id env.job_id) db.document_job ≡ false
    → IsSound (write_approval env actor request_id note snapshot_id db)
unfolding write_approval new_approval new_job
write_approval-IsSound env actor request_id note snapshot_id db r v found fits fresh =
    let at = reviewed_request actor request_id db r v found in
    let open_still = find-holds (is_reviewable actor request_id) db.document_request found in
    let after = λ (id : ℕ).
      request-cases (has_request_id request_id) (set_approved snapshot_id) id db.document_request
        (λ r'. refl) in
    record {
      decided = λ id. elim (after id) [
        | inl (same, miss) ↦ ground (arith, v.decided id)
        | inr (r', hit, own, was, now) ↦ ground (arith, v.decided id)
      ];
      worked = λ id. ground (arith, v.worked id);
      advanced = λ id. elim (after id) [
        | inl (same, miss) ↦ ground (arith, v.advanced id)
        | inr (r', hit, own, was, now) ↦ ground (arith, v.advanced id)
      ];
      delivered = λ id. elim (after id) [
        | inl (same, miss) ↦ ground (arith, v.delivered id)
        | inr (r', hit, own, was, now) ↦ ground (arith, v.delivered id)
      ];
      single = v.single;
      renderable = λ id. elim (after id) [
        | inl (same, miss) ↦ ground (arith, v.renderable id)
        | inr (r', hit, own, was, now) ↦ ground (arith, v.renderable id)
      ];
      numbered = λ id.
          ground (arith, v.numbered id, count-exists (has_job_id env.job_id) db.document_job fresh);
      keyed = λ id. ground (
        arith,
        v.keyed id,
        count-update_same (has_request_id request_id) (has_request_id id) (set_approved snapshot_id)
            db.document_request (λ r'. refl),
      );
      bounded = ground (arith, v.bounded);
    }

with_snapshots-IsSound :
    (snapshots : List TranscriptSnapshot) (db : DocumentsDb)
    → IsSound db
    → IsSound (with_snapshots snapshots db)
with_snapshots-IsSound snapshots db v = record {
  decided = v.decided;
  worked = v.worked;
  advanced = v.advanced;
  delivered = v.delivered;
  single = v.single;
  renderable = v.renderable;
  numbered = v.numbered;
  keyed = v.keyed;
  bounded = v.bounded;
}

pub approve-IsSound :
    (env : DocEnv) (actor : Actor) (request_id : ℕ) (note : String) (db d : DocumentsDb)
    → IsSound db
    → approve env actor request_id note db ≡ ok d
    → IsSound d
approve-IsSound env actor request_id note db d v h =
    let (r, snapshot_id, snapshots, found, fits, fresh, made) =
      approve_inv env actor request_id note db d h in
    subst IsSound (sym made) (
      write_approval-IsSound env actor request_id (trim note) snapshot_id
        (with_snapshots snapshots db) r (with_snapshots-IsSound snapshots db v) found fits fresh)

pub reject_inv :
    (env : DocEnv) (actor : Actor) (request_id : ℕ) (note : String) (db d : DocumentsDb)
    → reject env actor request_id note db ≡ ok d
    → (exists_where (is_reviewable actor request_id) db.document_request ≡ true)
      × (d ≡ write_rejection env actor request_id note db)
unfolding reject
reject_inv env actor request_id note db d h = (ground arith, ground arith)

pub reject-IsSound :
    (env : DocEnv) (actor : Actor) (request_id : ℕ) (note : String) (db d : DocumentsDb)
    → IsSound db
    → reject env actor request_id note db ≡ ok d
    → IsSound d
unfolding write_rejection new_approval
reject-IsSound env actor request_id note db d v h =
    let (there, made) = reject_inv env actor request_id note db d h in
    elim (Option-cases (find_where (is_reviewable actor request_id) db.document_request)) [
      | inl missing ↦ absurd (
          ground
            (arith, find_none-exists (is_reviewable actor request_id) db.document_request missing))
      | inr (r, found) ↦
          let at = reviewed_request actor request_id db r v found in
          let open_still = find-holds (is_reviewable actor request_id) db.document_request found in
          let after = λ (id : ℕ).
            request-cases (is_reviewable actor request_id) (moved_to RequestStatus.rejected) id
              db.document_request (λ r'. refl) in
          subst IsSound (sym made) (record {
            decided = λ id. elim (after id) [
              | inl (same, miss) ↦ ground (arith, v.decided id)
              | inr (r', hit, own, was, now) ↦ ground (arith, v.decided id)
            ];
            worked = λ id. ground (arith, v.worked id);
            advanced = λ id. elim (after id) [
              | inl (same, miss) ↦ ground (arith, v.advanced id)
              | inr (r', hit, own, was, now) ↦ ground (arith, v.advanced id)
            ];
            delivered = λ id. elim (after id) [
              | inl (same, miss) ↦ ground (arith, v.delivered id)
              | inr (r', hit, own, was, now) ↦ ground (arith, v.delivered id)
            ];
            single = v.single;
            renderable = λ id. elim (after id) [
              | inl (same, miss) ↦ ground (arith, v.renderable id)
              | inr (r', hit, own, was, now) ↦ ground (arith, v.renderable id)
            ];
            numbered = v.numbered;
            keyed = λ id. ground (
              arith,
              v.keyed id,
              count-update_same (is_reviewable actor request_id) (has_request_id id)
                  (moved_to RequestStatus.rejected) db.document_request (λ r'. refl),
            );
            bounded = v.bounded;
          })
    ]

pub generate_snapshot-IsSound :
    (env : DocEnv) (actor : Actor) (student_id : ℕ) (db : DocumentsDb) (out : ℕ × DocumentsDb)
    → IsSound db
    → generate_snapshot env actor student_id db ≡ ok out
    → IsSound out.1
unfolding generate_snapshot create
generate_snapshot-IsSound env actor student_id db out v h =
    let made : (out.1.document_request ≡ db.document_request)
        × (out.1.document_approval ≡ db.document_approval)
        × (out.1.document_job ≡ db.document_job)
        × (out.1.generated_document ≡ db.generated_document) =
      (ground arith, ground arith, ground arith, ground arith) in
    record {
      decided = λ id. ground (arith, v.decided id);
      worked = λ id. ground (arith, v.worked id);
      advanced = λ id. ground (arith, v.advanced id);
      delivered = λ id. ground (arith, v.delivered id);
      single = λ id. ground (arith, v.single id);
      renderable = λ id. ground (arith, v.renderable id);
      numbered = λ id. ground (arith, v.numbered id);
      keyed = λ id. ground (arith, v.keyed id);
      bounded = ground (arith, v.bounded);
    }
