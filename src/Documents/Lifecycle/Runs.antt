-- ===== src/Documents/Lifecycle/Runs.antt =====
-- The committed states of the documents service and any number of workers.
use ubedtech.Prelude.{ℕ, String, ◌≡◌, some, arith}
use ubedtech.Shared.Actor.{Actor}
use ubedtech.Shared.Error.{Result, ok, AppError}
use ubedtech.Documents.State.{
  TranscriptSnapshot, DocumentsDb, DocEnv, RequestDocumentCommand, DocumentRequestReceipt,
}
use ubedtech.Documents.Requests.{request_for_self}
use ubedtech.Documents.Review.{create, generate_snapshot, approve, reject}
use ubedtech.Documents.Worker.{reap_stale, ClaimedJob, claim_job, Artifact, finish_job}
use ubedtech.Documents.Lifecycle.{IsSound}
use ubedtech.Documents.Lifecycle.Service.{request_for_self-IsSound}
use ubedtech.Documents.Lifecycle.Review.{approve-IsSound, reject-IsSound, generate_snapshot-IsSound}
use ubedtech.Documents.Lifecycle.Jobs.{
  reap_stale-IsSound, claim_job-IsSound, claim_job-Holds, finish_job-IsSound,
}
use ubedtech.Documents.Lifecycle.Keeps.{
  Keeps, Keeps-refl, Keeps-trans, Keeps-same, reap_stale-Keeps, request_for_self-Keeps,
  approve-Keeps, reject-Keeps, finish_job-Keeps, claim_job-Keeps, Keeps-Holds,
}

-- `Runs s d`: the committed state `d` follows from `s`. A worker finishes, at whatever state `a` it
-- then finds, a job that it claimed at an earlier state `b`; between the two, other workers may
-- have reaped, claimed and finished the same job.
pub data Runs : DocumentsDb → DocumentsDb → Type 0 where
  here : {s : DocumentsDb} → Runs s s
  requested :
      {s a : DocumentsDb} (env : DocEnv) (actor : Actor) (command : RequestDocumentCommand)
      (before : DocumentsDb) (out : DocumentRequestReceipt × DocumentsDb)
      → Runs s a
      → request_for_self env actor command before a ≡ ok out
      → Runs s out.1
  accepted :
      {s a d : DocumentsDb} (env : DocEnv) (actor : Actor) (request_id : ℕ) (note : String)
      → Runs s a
      → approve env actor request_id note a ≡ ok d
      → Runs s d
  refused :
      {s a d : DocumentsDb} (env : DocEnv) (actor : Actor) (request_id : ℕ) (note : String)
      → Runs s a
      → reject env actor request_id note a ≡ ok d
      → Runs s d
  recorded :
      {s a : DocumentsDb} (env : DocEnv) (actor : Actor) (student_id : ℕ) (out : ℕ × DocumentsDb)
      → Runs s a
      → generate_snapshot env actor student_id a ≡ ok out
      → Runs s out.1
  reaped :
      {s a : DocumentsDb} (env : DocEnv) (stale_after_secs : ℕ)
      → Runs s a
      → Runs s (reap_stale env stale_after_secs a).1
  taken :
      {s a : DocumentsDb} (env : DocEnv) (worker_id : String) (out : ClaimedJob × DocumentsDb)
      → Runs s a
      → claim_job env worker_id a ≡ some out
      → Runs s out.1
  finished :
      {s b a : DocumentsDb} (render : ℕ → TranscriptSnapshot → Result AppError Artifact)
      (env env' : DocEnv) (worker_id : String) (out : ClaimedJob × DocumentsDb) (read : DocumentsDb)
      → Runs s b
      → claim_job env worker_id b ≡ some out
      → Runs out.1 a
      → Runs s (finish_job render env' out.0 read a)

pub Runs-Keeps : {s d : DocumentsDb} → Runs s d → Keeps s d
unfolding generate_snapshot create
Runs-Keeps {s} {d} here = Keeps-refl s
Runs-Keeps {s} (requested {a = a} env actor command before out r h) =
    Keeps-trans s a out.1 (Runs-Keeps r) (request_for_self-Keeps env actor command before a out h)
Runs-Keeps {s} {d} (accepted {a = a} env actor request_id note r h) =
    Keeps-trans s a d (Runs-Keeps r) (approve-Keeps env actor request_id note a d h)
Runs-Keeps {s} {d} (refused {a = a} env actor request_id note r h) =
    Keeps-trans s a d (Runs-Keeps r) (reject-Keeps env actor request_id note a d h)
Runs-Keeps {s} (recorded {a = a} env actor student_id out r h) =
    Keeps-trans s a out.1 (Runs-Keeps r) (Keeps-same a out.1 (ground arith) (ground arith))
Runs-Keeps {s} {d} (reaped {a = a} env stale_after_secs r) =
    Keeps-trans s a d (Runs-Keeps r) (reap_stale-Keeps env stale_after_secs a)
Runs-Keeps {s} (taken {a = a} env worker_id out r h) =
    Keeps-trans s a out.1 (Runs-Keeps r) (claim_job-Keeps env worker_id a out h)
Runs-Keeps {s} {d} (finished {b = b} {a = a} render env env' worker_id out read r h q) =
    Keeps-trans s b d (Runs-Keeps r) (
      Keeps-trans b out.1 d (claim_job-Keeps env worker_id b out h)
        (Keeps-trans out.1 a d (Runs-Keeps q) (finish_job-Keeps render env' out.0 read a)))

-- Every state that the service and any number of workers reach from a sound one is sound, in
-- whatever order they run and however late a worker finishes: a request is decided at most once,
-- has one job for its approval, and is ready only with an artifact; a request has at most one
-- current artifact; no job is claimed more than three times, and none that is queued is out of
-- attempts.
pub Runs-IsSound : {s d : DocumentsDb} → IsSound s → Runs s d → IsSound d
Runs-IsSound v here = v
Runs-IsSound v (requested {a = a} env actor command before out r h) =
    request_for_self-IsSound env actor command before a out (Runs-IsSound v r) h
Runs-IsSound v (accepted {a = a} {d = d} env actor request_id note r h) =
    approve-IsSound env actor request_id note a d (Runs-IsSound v r) h
Runs-IsSound v (refused {a = a} {d = d} env actor request_id note r h) =
    reject-IsSound env actor request_id note a d (Runs-IsSound v r) h
Runs-IsSound v (recorded {a = a} env actor student_id out r h) =
    generate_snapshot-IsSound env actor student_id a out (Runs-IsSound v r) h
Runs-IsSound v (reaped {a = a} env stale_after_secs r) =
    reap_stale-IsSound env stale_after_secs a (Runs-IsSound v r)
Runs-IsSound v (taken {a = a} env worker_id out r h) =
    claim_job-IsSound env worker_id a out (Runs-IsSound v r) h
Runs-IsSound v (finished {b = b} {a = a} render env env' worker_id out read r h q) =
    let at = Runs-IsSound v r in
    let moved = Keeps-trans b out.1 a (claim_job-Keeps env worker_id b out h) (Runs-Keeps q) in
    finish_job-IsSound render env' out.0 read a
      (Runs-IsSound (claim_job-IsSound env worker_id b out at h) q)
      (Keeps-Holds b a out.0 moved (claim_job-Holds env worker_id b out at h))
