-- ===== src/Documents/Lifecycle/Jobs.antt =====
-- The transactions of the worker (backend/src/documents/worker.rs) keep what holds of requests, jobs
-- and artifacts, in whatever order workers run them.
use mathlib.Core.Path.{subst}
use ubedtech.Prelude.{
  ℕ, String, ◌≤◌, ◌≡◌, refl, sym, true, false, Option, none, some, List, [], ◌∷◌, arith, find_where,
  count_where, exists_where, select_where, update_where, Option-cases, Bool-cases, inl, inr,
  is_none,
}
use ubedtech.Prelude.Counts.{count-find, find_none-exists}
use ubedtech.Shared.Error.{Result, ok, AppError, Result-cases}
use ubedtech.Documents.State.{
  RequestStatus, JobStatus, DocumentRequest, DocumentJob, TranscriptSnapshot, GeneratedDocument,
  DocumentsDb, DocEnv, has_job_id,
}
use ubedtech.Documents.Requests.{is_current}
use ubedtech.Documents.Worker.{
  is_spent, is_stale, set_reaped, set_failed, set_running, set_job_status, first_queued,
  set_request_status, fail_requests, reap_stale, ClaimedJob, claimed, claim_job, Artifact,
  snapshot_of, generate, new_document, insert_document, complete_job, is_terminal, fail_job,
  finish_job,
}
use ubedtech.Documents.Lifecycle.{grants, is_job_of, request_at, claim_fits, IsSound, Holds}
use ubedtech.Documents.Lifecycle.Writes.{
  set_request_status-IsSound, update_jobs-IsSound, insert_document-IsSound, status_fits,
}
use ubedtech.Documents.Lifecycle.Queue.{
  first_queued-count, set_running-is_overspent, set_reaped-is_overspent, set_failed-is_overspent,
  set_complete-is_overspent, AllGranted, select-AllGranted,
}

failed_fits : (o : Option DocumentRequest) → status_fits RequestStatus.failed o ≡ true
failed_fits none = refl
failed_fits (some r) = ground arith

fail_requests-IsSound :
    (js : List DocumentJob) (db : DocumentsDb)
    → IsSound db
    → AllGranted db.document_approval js
    → IsSound (fail_requests js db)
unfolding fail_requests set_request_status
fail_requests-IsSound [] db v g = v
fail_requests-IsSound (j ∷ js) db v g = elim (Bool-cases (is_spent j)) [
  | inr left ↦ rw left (fail_requests-IsSound js db v g.1)
  | inl spent ↦
      let failed =
        set_request_status-IsSound RequestStatus.failed j.request_id db v refl
          (failed_fits (request_at j.request_id db)) g.0 (omega arith) in
      rw spent (
        fail_requests-IsSound js (set_request_status RequestStatus.failed j.request_id db) failed
          g.1)
]

pub reap_stale-IsSound :
    (env : DocEnv) (stale_after_secs : ℕ) (db : DocumentsDb)
    → IsSound db
    → IsSound (reap_stale env stale_after_secs db).1
unfolding reap_stale
reap_stale-IsSound env stale_after_secs db v =
    let stale = is_stale env.tx_now stale_after_secs in
    fail_requests-IsSound (select_where stale db.document_job)
      (record db { document_job = update_where stale (set_reaped env.tx_now) db.document_job })
      (update_jobs-IsSound stale (set_reaped env.tx_now) db v (λ j. refl) (λ j. refl)
        (set_reaped-is_overspent env.tx_now stale_after_secs db.document_job v.bounded))
      (select-AllGranted db.document_approval stale db.document_job
        (λ id. ground (arith, v.worked id)))

pub claim_job_inv :
    (env : DocEnv) (worker_id : String) (db : DocumentsDb) (out : ClaimedJob × DocumentsDb)
    → claim_job env worker_id db ≡ some out
    → (j : DocumentJob) × (r : DocumentRequest) × (first_queued env db.document_job ≡ some j)
      × (request_at j.request_id db ≡ some r)
      × (out.0.request_id ≡ j.request_id)
      × (out.0.current_snapshot_id ≡ r.current_snapshot_id)
      × (out.1 ≡ claimed env worker_id j db)
unfolding claim_job
claim_job_inv env worker_id db out h = elim (Option-cases (first_queued env db.document_job)) [
  | inl nothing ↦ absurd (ground arith)
  | inr (j, e) ↦ elim (Option-cases (request_at j.request_id db)) [
    | inl missing ↦ absurd (ground arith)
    | inr (r, found) ↦ (j, r, e, found, ground arith, ground arith, ground arith)
  ]
]

-- The request of a job was approved.
claimed_granted :
    (env : DocEnv) (db : DocumentsDb) (j : DocumentJob)
    → IsSound db
    → first_queued env db.document_job ≡ some j
    → 1 ≤ count_where (grants j.request_id) db.document_approval
claimed_granted env db j v e =
    let own : is_job_of j.request_id j ≡ true = ground arith in
    ground (
      arith,
      v.worked j.request_id,
      first_queued-count env db.document_job j e (is_job_of j.request_id) own,
    )

generating_fits : (o : Option DocumentRequest) → status_fits RequestStatus.generating o ≡ true
generating_fits none = refl
generating_fits (some r) = ground arith

pub claim_job-IsSound :
    (env : DocEnv) (worker_id : String) (db : DocumentsDb) (out : ClaimedJob × DocumentsDb)
    → IsSound db
    → claim_job env worker_id db ≡ some out
    → IsSound out.1
unfolding claimed
claim_job-IsSound env worker_id db out v h =
    let (j, r, e, found, own, carried, made) = claim_job_inv env worker_id db out h in
    let f = set_running env.tx_now worker_id in
    let running = record db { document_job = update_where (has_job_id j.id) f db.document_job } in
    subst IsSound (sym made) (
      set_request_status-IsSound RequestStatus.generating j.request_id running
        (update_jobs-IsSound (has_job_id j.id) f db v (λ x. refl) (λ x. refl)
          (set_running-is_overspent env worker_id db.document_job j e (v.numbered j.id) v.bounded))
        refl (generating_fits (request_at j.request_id db)) (claimed_granted env db j v e)
        (omega arith))

-- What a claim holds of its request when it is made.
pub claim_job-Holds :
    (env : DocEnv) (worker_id : String) (db : DocumentsDb) (out : ClaimedJob × DocumentsDb)
    → IsSound db
    → claim_job env worker_id db ≡ some out
    → Holds db out.0
claim_job-Holds env worker_id db out v h =
    let (j, r, e, found, own, carried, made) = claim_job_inv env worker_id db out h in
    record {
      granted = ground (arith, claimed_granted env db j v e);
      fits = ground (arith, v.renderable j.request_id);
    }

-- After the insert there is a current artifact, the new one or an older one.
insert_document-count :
    (d : GeneratedDocument) (db : DocumentsDb)
    → is_none d.superseded_at ≡ true
    → 1 ≤ count_where (is_current d.request_id) (insert_document d db).generated_document
unfolding insert_document
insert_document-count d db n =
    let p = is_current d.request_id in
    elim (Bool-cases (exists_where p db.generated_document)) [
      | inr missing ↦ ground arith
      | inl there ↦ elim (Option-cases (find_where p db.generated_document)) [
        | inl nothing ↦ absurd (ground (arith, find_none-exists p db.generated_document nothing))
        | inr (d', found) ↦ ground (arith, count-find p db.generated_document found)
      ]
    ]

ready_fits :
    (job : ClaimedJob) (o : Option DocumentRequest)
    → claim_fits job o ≡ true
    → is_none job.current_snapshot_id ≡ false
    → status_fits RequestStatus.ready o ≡ true
ready_fits job none h n = refl
ready_fits job (some r) h n = ground arith

-- The insert touches the artifacts only.
pub insert_document_same :
    (d : GeneratedDocument) (db : DocumentsDb)
    → ((insert_document d db).document_request ≡ db.document_request)
      × ((insert_document d db).document_approval ≡ db.document_approval)
unfolding insert_document
insert_document_same d db = (ground arith, ground arith)

complete_job-IsSound :
    (env : DocEnv) (job : ClaimedJob) (artifact : Artifact) (db : DocumentsDb)
    → IsSound db
    → Holds db job
    → is_none job.current_snapshot_id ≡ false
    → IsSound (complete_job env job artifact db)
unfolding complete_job new_document
complete_job-IsSound env job artifact db v w n =
    let d = new_document env job artifact in
    let inserted = insert_document d db in
    let sound = insert_document-IsSound d db v in
    let (requests, approvals) = insert_document_same d db in
    let f = set_job_status JobStatus.complete in
    let done = record inserted {
      document_job = update_where (has_job_id job.job_id) f inserted.document_job;
    } in
    set_request_status-IsSound RequestStatus.ready job.request_id done
      (update_jobs-IsSound (has_job_id job.job_id) f inserted sound (λ x. refl) (λ x. refl)
        (set_complete-is_overspent job.job_id inserted.document_job sound.bounded))
      refl (rw requests (ready_fits job (request_at job.request_id db) w.fits n))
      (rw approvals w.granted) (insert_document-count d db refl)

fail_job-IsSound :
    (env : DocEnv) (job : ClaimedJob) (db : DocumentsDb)
    → IsSound db
    → Holds db job
    → IsSound (fail_job env job db)
unfolding fail_job
fail_job-IsSound env job db v w =
    let f = set_failed env.tx_now in
    let moved = record db {
      document_job = update_where (has_job_id job.job_id) f db.document_job;
    } in
    let sound =
      update_jobs-IsSound (has_job_id job.job_id) f db v (λ x. refl) (λ x. refl)
        (set_failed-is_overspent job.job_id env.tx_now db.document_job v.bounded) in
    elim (Bool-cases (is_terminal job.job_id moved)) [
      | inr again ↦ rw again sound
      | inl terminal ↦ rw terminal (
          set_request_status-IsSound RequestStatus.failed job.request_id moved sound refl
            (failed_fits (request_at job.request_id db)) w.granted (omega arith))
    ]

-- A render succeeds on a snapshot only.
pub generate_inv :
    (render : ℕ → TranscriptSnapshot → Result AppError Artifact) (job : ClaimedJob)
    (read : DocumentsDb) (artifact : Artifact)
    → generate render job read ≡ ok artifact
    → is_none job.current_snapshot_id ≡ false
unfolding generate snapshot_of
generate_inv render job read artifact h = elim (Option-cases job.current_snapshot_id) [
  | inl without ↦ absurd (ground arith)
  | inr (id, e) ↦ ground arith
]

pub finish_job-IsSound :
    (render : ℕ → TranscriptSnapshot → Result AppError Artifact) (env : DocEnv) (job : ClaimedJob)
    (read db : DocumentsDb)
    → IsSound db
    → Holds db job
    → IsSound (finish_job render env job read db)
unfolding finish_job
finish_job-IsSound render env job read db v w = elim (Result-cases (generate render job read)) [
  | inl (artifact, e) ↦
      rw (finish_job, e)
        (complete_job-IsSound env job artifact db v w (generate_inv render job read artifact e))
  | inr (error, e) ↦ rw (finish_job, e) (fail_job-IsSound env job db v w)
]
