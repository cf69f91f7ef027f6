-- ===== src/Documents/Lifecycle/Writes.antt =====
-- The single writes that the transactions of backend/src/documents are made of.
use ubedtech.Prelude.{
  ℕ, ◌≤◌, ◌≡◌, ◌⊎◌, refl, Bool, true, false, ◌||◌, Option, none, some, arith, count_where,
  exists_where, update_where, Option-cases, Bool-cases, inl, inr,
}
use ubedtech.Prelude.Counts.{find-holds, find-update, count-update_same, count-exists}
use ubedtech.Documents.State.{
  RequestStatus, DocumentRequest, DocumentJob, GeneratedDocument, DocumentsDb, has_request_id,
  has_job_id,
}
use ubedtech.Documents.Requests.{is_current}
use ubedtech.Documents.Review.{needs_snapshot, moved_to}
use ubedtech.Documents.Worker.{set_request_status, insert_document}
use ubedtech.Documents.Lifecycle.{
  grants, is_job_of, request_at, is_granted_status, is_overspent, IsSound,
}

-- The lookup of a request after a change of a status: the same, or the changed request.
pub set_request_status-cases :
    (status : RequestStatus) (request_id id : ℕ) (db : DocumentsDb)
    → (request_at id (set_request_status status request_id db) ≡ request_at id db)
      ⊎ ((r : DocumentRequest) × (id ≡ request_id)
          × (request_at id db ≡ some r)
          × (request_at id (set_request_status status request_id db) ≡ some (moved_to status r)))
unfolding set_request_status
set_request_status-cases status request_id id db =
    let moved =
      find-update (has_request_id request_id) (has_request_id id) (moved_to status)
        db.document_request (λ r. refl) in
    elim (Option-cases (request_at id db)) [
      | inl absent ↦ inl (ground arith)
      | inr (r, found) ↦
          let own = find-holds (has_request_id id) db.document_request found in
          elim (Bool-cases (has_request_id request_id r)) [
            | inl hit ↦ inr (r, ground arith, found, ground arith)
            | inr other ↦ inl (ground arith)
          ]
    ]

-- What a status needs of its request.
abbrev pub status_fits : RequestStatus → Option DocumentRequest → Bool
status_fits status none = true
status_fits status (some r) =
    needs_snapshot r.document_type || (elim status [ RequestStatus.ready ↦ false | _ ↦ true ])

abbrev pub artifacts_for : RequestStatus → ℕ
artifacts_for status = elim status [ RequestStatus.ready ↦ 1 | _ ↦ 0 ]

pub set_request_status-IsSound :
    (status : RequestStatus) (request_id : ℕ) (db : DocumentsDb)
    → IsSound db
    → is_granted_status status ≡ true
    → status_fits status (request_at request_id db) ≡ true
    → 1 ≤ count_where (grants request_id) db.document_approval
    → artifacts_for status ≤ count_where (is_current request_id) db.generated_document
    → IsSound (set_request_status status request_id db)
unfolding set_request_status
set_request_status-IsSound status request_id db v g f k m = record {
  decided = λ id. elim (set_request_status-cases status request_id id db) [
    | inl same ↦ rw same (v.decided id)
    | inr (r, e, found, moved) ↦ ground (arith, v.decided id)
  ];
  worked = v.worked;
  advanced = λ id. elim (set_request_status-cases status request_id id db) [
    | inl same ↦ rw same (v.advanced id)
    | inr (r, e, found, moved) ↦ ground (arith)
  ];
  delivered = λ id. elim (set_request_status-cases status request_id id db) [
    | inl same ↦ rw same (v.delivered id)
    | inr (r, e, found, moved) ↦ ground (arith)
  ];
  single = v.single;
  renderable = λ id. elim (set_request_status-cases status request_id id db) [
    | inl same ↦ rw same (v.renderable id)
    | inr (r, e, found, moved) ↦ ground (arith, v.renderable id)
  ];
  numbered = v.numbered;
  keyed = λ id. ground (
    arith,
    v.keyed id,
    count-update_same (has_request_id request_id) (has_request_id id) (moved_to status)
        db.document_request (λ r. refl),
  );
  bounded = v.bounded;
}

-- An update of jobs that keeps their keys, and spends no more attempts than there are.
pub update_jobs-IsSound :
    (p : DocumentJob → Bool) (f : DocumentJob → DocumentJob) (db : DocumentsDb)
    → IsSound db
    → ((j : DocumentJob) → (f j).id ≡ j.id)
    → ((j : DocumentJob) → (f j).request_id ≡ j.request_id)
    → count_where is_overspent (update_where p f db.document_job) ≡ 0
    → IsSound (record db { document_job = update_where p f db.document_job })
update_jobs-IsSound p f db v keeps moves bounded = record {
  decided = v.decided;
  worked = λ id. ground (
    arith,
    count-update_same p (is_job_of id) f db.document_job (λ j. ground (arith, moves j)),
    v.worked id,
  );
  advanced = v.advanced;
  delivered = v.delivered;
  single = v.single;
  renderable = v.renderable;
  numbered = λ id. ground (
    arith,
    count-update_same p (has_job_id id) f db.document_job (λ j. ground (arith, keeps j)),
    v.numbered id,
  );
  keyed = v.keyed;
  bounded = bounded;
}

-- The insert of an artifact, that does nothing where a current one is there.
pub insert_document-IsSound :
    (d : GeneratedDocument) (db : DocumentsDb) → IsSound db → IsSound (insert_document d db)
unfolding insert_document
insert_document-IsSound d db v =
    elim (Bool-cases (exists_where (is_current d.request_id) db.generated_document)) [
      | inl there ↦ rw there v
      | inr missing ↦ rw missing (record {
        decided = v.decided;
        worked = v.worked;
        advanced = v.advanced;
        delivered = λ id. ground (arith, v.delivered id);
        single = λ id. ground (
          arith,
          v.single id,
          count-exists (is_current d.request_id) db.generated_document missing,
        );
        renderable = v.renderable;
        numbered = v.numbered;
        keyed = v.keyed;
        bounded = v.bounded;
      })
    ]
