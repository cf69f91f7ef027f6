-- ===== src/Documents/Lifecycle/Keeps.antt =====
-- What no transaction of backend/src/documents takes away: approvals, and the types of requests.
use mathlib.Core.Path.{subst}
use ubedtech.Prelude.{
  ℕ, String, ◌≤◌, ◌≡◌, refl, sym, true, some, List, [], ◌∷◌, arith, count_where, select_where,
  update_where, Bool-cases, inl, inr,
}
use ubedtech.Prelude.Counts.{exists-find_none}
use ubedtech.Shared.Actor.{Actor}
use ubedtech.Shared.Error.{Result, ok, AppError, Result-cases}
use ubedtech.Documents.State.{
  RequestStatus, JobStatus, DocumentJob, TranscriptSnapshot, DocumentsDb, DocEnv,
  RequestDocumentCommand, DocumentRequestReceipt, has_request_id, has_job_id,
}
use ubedtech.Documents.Requests.{request_for_self}
use ubedtech.Documents.Review.{
  moved_to, set_approved, new_approval, write_approval, approve, is_reviewable, write_rejection,
  reject,
}
use ubedtech.Documents.Worker.{
  is_spent, is_stale, set_reaped, set_job_status, set_request_status, fail_requests, reap_stale,
  ClaimedJob, claimed, claim_job, Artifact, generate, new_document, insert_document, complete_job,
  fail_job, is_terminal, set_failed, finish_job,
}
use ubedtech.Documents.Lifecycle.{grants, request_at, claim_fits, Holds}
use ubedtech.Documents.Lifecycle.Writes.{set_request_status-cases}
use ubedtech.Documents.Lifecycle.Service.{request_for_self_inv}
use ubedtech.Documents.Lifecycle.Review.{request-cases, approve_inv, reject_inv}
use ubedtech.Documents.Lifecycle.Jobs.{claim_job_inv, insert_document_same}

-- What every transaction leaves: the approvals, and the type of every request.
pub record Keeps (a d : DocumentsDb) : Type 0 where
  pub grants_kept :
      (id : ℕ)
      → count_where (grants id) a.document_approval ≤ count_where (grants id) d.document_approval
  pub fits_kept :
      (id : ℕ) (job : ClaimedJob)
      → claim_fits job (request_at id a) ≡ true
      → claim_fits job (request_at id d) ≡ true

pub Keeps-refl : (a : DocumentsDb) → Keeps a a
Keeps-refl a = record { grants_kept = λ id. omega arith; fits_kept = λ id job h. h }

pub Keeps-trans : (a b c : DocumentsDb) → Keeps a b → Keeps b c → Keeps a c
Keeps-trans a b c k l = record {
  grants_kept = λ id. omega (arith, k.grants_kept id, l.grants_kept id);
  fits_kept = λ id job h. l.fits_kept id job (k.fits_kept id job h);
}

pub Keeps-same :
    (a d : DocumentsDb)
    → d.document_request ≡ a.document_request
    → d.document_approval ≡ a.document_approval
    → Keeps a d
Keeps-same a d r q = record {
  grants_kept = λ id. ground arith;
  fits_kept = λ id job h. ground arith;
}

set_request_status-Keeps :
    (status : RequestStatus) (request_id : ℕ) (db : DocumentsDb)
    → Keeps db (set_request_status status request_id db)
unfolding set_request_status
set_request_status-Keeps status request_id db = record {
  grants_kept = λ id. omega arith;
  fits_kept = λ id job h. elim (set_request_status-cases status request_id id db) [
    | inl same ↦ rw same h
    | inr (r, e, found, moved) ↦ ground arith
  ];
}

fail_requests-Keeps : (js : List DocumentJob) (db : DocumentsDb) → Keeps db (fail_requests js db)
unfolding fail_requests
fail_requests-Keeps [] db = Keeps-refl db
fail_requests-Keeps (j ∷ js) db = elim (Bool-cases (is_spent j)) [
  | inr left ↦ rw left (fail_requests-Keeps js db)
  | inl spent ↦
      let failed = set_request_status RequestStatus.failed j.request_id db in
      rw spent (
        Keeps-trans db failed (fail_requests js failed)
          (set_request_status-Keeps RequestStatus.failed j.request_id db)
          (fail_requests-Keeps js failed))
]

pub reap_stale-Keeps :
    (env : DocEnv) (stale_after_secs : ℕ) (db : DocumentsDb)
    → Keeps db (reap_stale env stale_after_secs db).1
unfolding reap_stale
reap_stale-Keeps env stale_after_secs db =
    let stale = is_stale env.tx_now stale_after_secs in
    let moved = record db {
      document_job = update_where stale (set_reaped env.tx_now) db.document_job;
    } in
    let js = select_where stale db.document_job in
    Keeps-trans db moved (fail_requests js moved) (Keeps-same db moved refl refl)
      (fail_requests-Keeps js moved)

pub request_for_self-Keeps :
    (env : DocEnv) (actor : Actor) (command : RequestDocumentCommand) (before db : DocumentsDb)
    (out : DocumentRequestReceipt × DocumentsDb)
    → request_for_self env actor command before db ≡ ok out
    → Keeps db out.1
request_for_self-Keeps env actor command before db out h =
    elim (request_for_self_inv env actor command before db out h) [
      | inl same ↦ subst (Keeps db) (sym same) (Keeps-refl db)
      | inr (r, p, n, fresh, made) ↦
          let absent = exists-find_none (has_request_id r.id) db.document_request fresh in
          subst (Keeps db) (sym made)
            (record { grants_kept = λ id. omega arith; fits_kept = λ id job k. ground arith })
    ]

pub approve-Keeps :
    (env : DocEnv) (actor : Actor) (request_id : ℕ) (note : String) (db d : DocumentsDb)
    → approve env actor request_id note db ≡ ok d
    → Keeps db d
unfolding write_approval new_approval
approve-Keeps env actor request_id note db d h =
    let (r, snapshot_id, snapshots, found, fits, fresh, made) =
      approve_inv env actor request_id note db d h in
    subst (Keeps db) (sym made) (record {
      grants_kept = λ id. ground arith;
      fits_kept = λ id job k.
          elim (request-cases (has_request_id request_id) (set_approved snapshot_id) id
            db.document_request (λ r'. refl)) [
              | inl (same, miss) ↦ ground arith
              | inr (r', hit, own, was, now) ↦ ground arith
            ];
    })

pub reject-Keeps :
    (env : DocEnv) (actor : Actor) (request_id : ℕ) (note : String) (db d : DocumentsDb)
    → reject env actor request_id note db ≡ ok d
    → Keeps db d
unfolding write_rejection new_approval
reject-Keeps env actor request_id note db d h =
    let (there, made) = reject_inv env actor request_id note db d h in
    subst (Keeps db) (sym made) (record {
      grants_kept = λ id. ground arith;
      fits_kept = λ id job k.
          elim (request-cases (is_reviewable actor request_id) (moved_to RequestStatus.rejected) id
            db.document_request (λ r'. refl)) [
              | inl (same, miss) ↦ ground arith
              | inr (r', hit, own, was, now) ↦ ground arith
            ];
    })

pub finish_job-Keeps :
    (render : ℕ → TranscriptSnapshot → Result AppError Artifact) (env : DocEnv) (job : ClaimedJob)
    (read db : DocumentsDb)
    → Keeps db (finish_job render env job read db)
unfolding finish_job complete_job fail_job
finish_job-Keeps render env job read db = elim (Result-cases (generate render job read)) [
  | inl (artifact, e) ↦
      let inserted = insert_document (new_document env job artifact) db in
      let done = record inserted {
        document_job =
            update_where (has_job_id job.job_id) (set_job_status JobStatus.complete)
              inserted.document_job;
      } in
      let (requests, approvals) = insert_document_same (new_document env job artifact) db in
      rw (finish_job, e)
        (Keeps-trans db done (complete_job env job artifact db)
          (Keeps-same db done requests approvals)
          (set_request_status-Keeps RequestStatus.ready job.request_id done))
  | inr (error, e) ↦
      let moved = record db {
        document_job = update_where (has_job_id job.job_id) (set_failed env.tx_now) db.document_job;
      } in
      elim (Bool-cases (is_terminal job.job_id moved)) [
        | inr again ↦ rw (finish_job, e, again) (Keeps-same db moved refl refl)
        | inl terminal ↦
            rw (finish_job, e, terminal)
              (Keeps-trans db moved (set_request_status RequestStatus.failed job.request_id moved)
                (Keeps-same db moved refl refl)
                (set_request_status-Keeps RequestStatus.failed job.request_id moved))
      ]
]

pub claim_job-Keeps :
    (env : DocEnv) (worker_id : String) (db : DocumentsDb) (out : ClaimedJob × DocumentsDb)
    → claim_job env worker_id db ≡ some out
    → Keeps db out.1
unfolding claimed set_request_status
claim_job-Keeps env worker_id db out h =
    let (j, r, e, found, own, carried, made) = claim_job_inv env worker_id db out h in
    let status_kept = set_request_status-Keeps RequestStatus.generating j.request_id db in
    subst (Keeps db) (sym made)
      (record { grants_kept = status_kept.grants_kept; fits_kept = status_kept.fits_kept })

pub Keeps-Holds : (a d : DocumentsDb) (job : ClaimedJob) → Keeps a d → Holds a job → Holds d job
Keeps-Holds a d job k w = record {
  granted = ground (arith, w.granted, k.grants_kept job.request_id);
  fits = k.fits_kept job.request_id job w.fits;
}
