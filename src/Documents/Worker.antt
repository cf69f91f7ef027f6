-- ===== src/Documents/Worker.antt =====
-- backend/src/documents/worker.rs: the transactions of the worker on the queue of jobs. Text of
-- `last_error` is left out; what a render gives is a parameter.
use ubedtech.Prelude.{
  ℕ, String, ◌+◌, Bool, true, false, ◌&&◌, not, Option, none, some, List, [], ◌∷◌, leb, ltb,
  if◌then◌else◌, find_where, exists_where, select_where, update_where, contains, length,
}
use ubedtech.Shared.Error.{Result, ok, err, AppError, internal}
use ubedtech.Documents.State.{
  RequestStatus, JobStatus, DocumentJob, TranscriptSnapshot, GeneratedDocument, DocumentsDb, DocEnv,
  is_queued, is_running, has_request_id, has_job_id,
}
use ubedtech.Documents.Requests.{is_current}
use ubedtech.Documents.Review.{has_snapshot_id, moved_to}

abbrev pub max_attempts : ℕ
max_attempts = 3

abbrev pub is_older : Option ℕ → ℕ → Bool
is_older none t = false
is_older (some at) t = ltb at t

-- `status = 'running' AND locked_at < now() - stale_after`, the subtraction moved to the other side.
abbrev pub is_stale : ℕ → ℕ → DocumentJob → Bool
is_stale tx_now stale_after_secs j =
    is_running j
    && (elim j.locked_at [ none ↦ false | some at ↦ ltb (at + stale_after_secs) tx_now ])

-- `CASE WHEN attempts >= $2 THEN 'failed' ELSE 'queued' END`
abbrev pub is_spent : DocumentJob → Bool
is_spent j = leb max_attempts j.attempts

abbrev pub set_reaped : ℕ → DocumentJob → DocumentJob
set_reaped tx_now j = record j {
  status = if is_spent j then JobStatus.failed else JobStatus.queued;
  available_at = tx_now;
  locked_at = none;
  locked_by = none;
}

-- `UPDATE document_request SET status WHERE id = $1`
unfoldable pub set_request_status : RequestStatus → ℕ → DocumentsDb → DocumentsDb
set_request_status status request_id db = record db {
  document_request = update_where (has_request_id request_id) (moved_to status) db.document_request;
}

-- The loop over the reaped jobs: a job whose attempts are spent fails its request.
unfoldable pub fail_requests : List DocumentJob → DocumentsDb → DocumentsDb
fail_requests [] db = db
fail_requests (j ∷ js) db =
    fail_requests js
      (if is_spent j then set_request_status RequestStatus.failed j.request_id db else db)

unfoldable pub reap_stale : DocEnv → ℕ → DocumentsDb → ℕ × DocumentsDb
reap_stale env stale_after_secs db =
    let stale = is_stale env.tx_now stale_after_secs in
    let reaped = select_where stale db.document_job in
    (
      length reaped,
      fail_requests reaped
          (record db { document_job = update_where stale (set_reaped env.tx_now) db.document_job }),
    )

pub record ClaimedJob : Type 0 where
  pub job_id : ℕ
  pub request_id : ℕ
  pub current_snapshot_id : Option ℕ

unfoldable pub is_claimable : DocEnv → DocumentJob → Bool
is_claimable env j = is_queued j && leb j.available_at env.tx_now && not (contains j.id env.locked)

-- `ORDER BY j.created_at LIMIT 1`
unfoldable pub first_queued : DocEnv → List DocumentJob → Option DocumentJob
first_queued env [] = none
first_queued env (j ∷ js) =
    let rest = first_queued env js in
    if is_claimable env j
    then elim rest [
      | none ↦ some j
      | some b ↦ if ltb b.created_at j.created_at then some b else some j
    ]
    else rest

abbrev pub set_running : ℕ → String → DocumentJob → DocumentJob
set_running tx_now worker_id j = record j {
  status = JobStatus.running;
  locked_at = some tx_now;
  locked_by = some worker_id;
  attempts = j.attempts + 1;
}

unfoldable pub claimed : DocEnv → String → DocumentJob → DocumentsDb → DocumentsDb
claimed env worker_id j db = set_request_status RequestStatus.generating j.request_id (record db {
  document_job = update_where (has_job_id j.id) (set_running env.tx_now worker_id) db.document_job;
})

-- The transaction of `run_once` that claims a job. The foreign key gives every job its request.
unfoldable pub claim_job : DocEnv → String → DocumentsDb → Option (ClaimedJob × DocumentsDb)
claim_job env worker_id db = elim (first_queued env db.document_job) [
  | none ↦ none
  | some j ↦ elim (find_where (has_request_id j.request_id) db.document_request) [
    | none ↦ none
    | some r ↦ some (
      record {
        job_id = j.id;
        request_id = j.request_id;
        current_snapshot_id = r.current_snapshot_id;
      },
      claimed env worker_id j db,
    )
  ]
]

pub record Artifact : Type 0 where
  pub bytes : ℕ
  pub hash : ℕ
  pub path : String

-- The snapshot that `generate` reads. `render_pdf` fails where it is given none.
unfoldable pub snapshot_of : Option ℕ → DocumentsDb → Option TranscriptSnapshot
snapshot_of none db = none
snapshot_of (some id) db = find_where (has_snapshot_id id) db.transcript_snapshot

-- `render` stands for the PDF library, the digest and the file store.
unfoldable pub generate :
    (ℕ → TranscriptSnapshot → Result AppError Artifact)
    → ClaimedJob
    → DocumentsDb
    → Result AppError Artifact
generate render job db = elim (snapshot_of job.current_snapshot_id db) [
  | none ↦ err internal
  | some snapshot ↦ render job.request_id snapshot
]

unfoldable pub new_document : DocEnv → ClaimedJob → Artifact → GeneratedDocument
new_document env job artifact = record {
  id = env.document_id;
  request_id = job.request_id;
  snapshot_id = job.current_snapshot_id;
  content_hash = artifact.hash;
  storage_path = artifact.path;
  mime_type = "application/pdf";
  size_bytes = artifact.bytes;
  superseded_at = none;
}

-- `INSERT … ON CONFLICT (request_id) WHERE superseded_at IS NULL DO NOTHING`
unfoldable pub insert_document : GeneratedDocument → DocumentsDb → DocumentsDb
insert_document d db =
    if exists_where (is_current d.request_id) db.generated_document
    then db
    else record db { generated_document = d ∷ db.generated_document }

abbrev pub set_job_status : JobStatus → DocumentJob → DocumentJob
set_job_status status j = record j { status = status }

-- `complete`: neither update asks whether the worker still holds the job.
unfoldable pub complete_job : DocEnv → ClaimedJob → Artifact → DocumentsDb → DocumentsDb
unfolding new_document insert_document set_request_status
complete_job env job artifact db =
    let inserted = insert_document (new_document env job artifact) db in
    set_request_status RequestStatus.ready job.request_id (record inserted {
      document_job =
          update_where (has_job_id job.job_id) (set_job_status JobStatus.complete)
            inserted.document_job;
    })

abbrev pub set_failed : ℕ → DocumentJob → DocumentJob
set_failed tx_now j = record j {
  status = if is_spent j then JobStatus.failed else JobStatus.queued;
  available_at = if is_spent j then j.available_at else tx_now + 30;
  locked_at = none;
  locked_by = none;
}

abbrev pub is_failed : DocumentJob → Bool
is_failed j = elim j.status [ JobStatus.failed ↦ true | _ ↦ false ]

-- `SELECT status = 'failed' … WHERE id = $1`
unfoldable pub is_terminal : ℕ → DocumentsDb → Bool
is_terminal job_id db = elim (find_where (has_job_id job_id) db.document_job) [
  | none ↦ false
  | some j ↦ is_failed j
]

-- `fail`
unfoldable pub fail_job : DocEnv → ClaimedJob → DocumentsDb → DocumentsDb
unfolding is_terminal set_request_status
fail_job env job db =
    let moved = record db {
      document_job = update_where (has_job_id job.job_id) (set_failed env.tx_now) db.document_job;
    } in
    if is_terminal job.job_id moved
    then set_request_status RequestStatus.failed job.request_id moved
    else moved

-- The rest of `run_once`: the render outside of a transaction, then `complete` or `fail`.
unfoldable pub finish_job :
    (ℕ → TranscriptSnapshot → Result AppError Artifact)
    → DocEnv
    → ClaimedJob
    → DocumentsDb
    → DocumentsDb
    → DocumentsDb
unfolding generate complete_job fail_job
finish_job render env job read db = elim (generate render job read) [
  | ok artifact ↦ complete_job env job artifact db
  | err e ↦ fail_job env job db
]
