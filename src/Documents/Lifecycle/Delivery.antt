-- ===== src/Documents/Lifecycle/Delivery.antt =====
-- What the documents service promises to those who ask: which artifacts can be downloaded
-- (backend/src/documents/service.rs), and how often a job is tried (worker.rs).
use ubedtech.Prelude.{
  ℕ, String, ◌≤◌, ◌≡◌, ◌≢◌, refl, Bool, true, false, ◌||◌, Option, none, some, List, arith, ◌==◌,
  find_where, count_where, Option-cases, Bool-cases, inl, inr,
}
use ubedtech.Prelude.Counts.{
  find-holds, find-weaken, count_mono, count-find_none, find_none-exists, find-count,
}
use ubedtech.Shared.Actor.{Actor, Role, has_role}
use ubedtech.Shared.Error.{ok, Result-cases}
use ubedtech.Documents.State.{
  DocumentApproval, DocumentType, DocumentRequest, DocumentJob, GeneratedDocument, DocumentsDb,
  DocEnv, is_ready, is_queued, has_request_id,
}
use ubedtech.Documents.Requests.{
  ArtifactRef, artifact_ref, downloadable, is_downloadable, owner_filter, owned_by, is_current,
}
use ubedtech.Documents.Review.{
  needs_snapshot, approve, reject, is_reviewable, write_approval, new_approval,
}
use ubedtech.Documents.Lifecycle.{decides, grants, request_at, is_overspent, IsSound}
use ubedtech.Documents.Lifecycle.Review.{approve_inv, approve-IsSound}
use ubedtech.Documents.Lifecycle.Runs.{Runs, Runs-IsSound, Runs-Keeps}

-- The actor is a document officer, or the student that the request belongs to.
abbrev pub may_download : Actor → DocumentRequest → Bool
may_download actor r =
    has_role actor Role.document_officer
    || (elim actor.student_id [ none ↦ false | some student_id ↦ r.student_id == student_id ])

-- The filter that a download is looked up with lets through what the actor may download.
owner_filter-owned_by :
    (actor : Actor) (r : DocumentRequest)
    → may_download actor r ≡ true
    → (owner : Option ℕ) × (owner_filter actor ≡ ok owner) × (owned_by owner r ≡ true)
owner_filter-owned_by actor r h = elim (Bool-cases (has_role actor Role.document_officer)) [
  | inl officer ↦ (none, ground arith, refl)
  | inr not_officer ↦ elim (Option-cases actor.student_id) [
    | inl nobody ↦ absurd (ground arith)
    | inr (student_id, e) ↦ (some student_id, ground arith, ground arith)
  ]
]

owned_by-may_download :
    (actor : Actor) (owner : Option ℕ) (r : DocumentRequest)
    → owner_filter actor ≡ ok owner
    → owned_by owner r ≡ true
    → may_download actor r ≡ true
owned_by-may_download actor none r h k = ground arith
owned_by-may_download actor (some student_id) r h k = ground arith

-- An artifact that is handed out is the current one of a request of the actor's institution that is
-- ready, was approved by an officer, is not for a signed document, and is the actor's own unless the
-- actor is a document officer.
pub downloadable-approved :
    {s d : DocumentsDb} (actor : Actor) (request_id : ℕ) (a : ArtifactRef)
    → IsSound s
    → Runs s d
    → downloadable actor request_id d ≡ ok a
    → (r : DocumentRequest) × (g : GeneratedDocument) × (request_at request_id d ≡ some r)
      × (is_ready r ≡ true)
      × (r.institution_id ≡ actor.institution_id)
      × (may_download actor r ≡ true)
      × (needs_snapshot r.document_type ≡ true)
      × (1 ≤ count_where (grants request_id) d.document_approval)
      × (find_where (is_current request_id) d.generated_document ≡ some g)
      × (a ≡ artifact_ref g)
unfolding downloadable is_downloadable
downloadable-approved {d = d} actor request_id a v run h =
    let w = Runs-IsSound v run in
    elim (Result-cases (owner_filter actor)) [
      | inr (e, q) ↦ absurd (ground arith)
      | inl (owner, q) ↦
          elim (Option-cases
            (find_where (is_downloadable actor request_id owner) d.document_request)) [
              | inl missing ↦ absurd (ground arith)
              | inr (r, found) ↦
                  elim (Option-cases (find_where (is_current request_id) d.generated_document)) [
                    | inl missing ↦ absurd (ground arith)
                    | inr (g, current) ↦
                        let fits =
                          find-holds (is_downloadable actor request_id owner) d.document_request
                            found in
                        let at =
                          find-weaken (is_downloadable actor request_id owner)
                            (has_request_id request_id) d.document_request (λ x k. ground arith)
                            found (w.keyed request_id) in
                        (
                          r,
                          g,
                          at,
                          ground arith,
                          ground arith,
                          owned_by-may_download actor owner r q (ground arith),
                          ground (arith, w.renderable request_id),
                          ground (arith, w.advanced request_id),
                          current,
                          ground arith,
                        )
                  ]
            ]
    ]

-- The artifact of a ready request can be downloaded by a document officer of its institution and by
-- the student it belongs to: a request that is ready is never without its artifact.
pub downloadable-ready :
    {s d : DocumentsDb} (actor : Actor) (request_id : ℕ) (r : DocumentRequest)
    → IsSound s
    → Runs s d
    → request_at request_id d ≡ some r
    → is_ready r ≡ true
    → r.institution_id ≡ actor.institution_id
    → may_download actor r ≡ true
    → (g : GeneratedDocument) × (find_where (is_current request_id) d.generated_document ≡ some g)
      × (downloadable actor request_id d ≡ ok (artifact_ref g))
unfolding downloadable is_downloadable
downloadable-ready {d = d} actor request_id r v run at ready own may =
    let w = Runs-IsSound v run in
    let (owner, q, owned) = owner_filter-owned_by actor r may in
    elim (Option-cases (find_where (is_current request_id) d.generated_document)) [
      | inl missing ↦
          let none_current = count-find_none (is_current request_id) d.generated_document missing in
          absurd (ground (arith, w.delivered request_id))
      | inr (g, current) ↦
          elim (Option-cases
            (find_where (is_downloadable actor request_id owner) d.document_request)) [
              | inl hidden ↦
                  let fits : is_downloadable actor request_id owner r ≡ true =
                    ground (arith, find-holds (has_request_id request_id) d.document_request at) in
                  let seen =
                    find-count (has_request_id request_id) (is_downloadable actor request_id owner)
                      d.document_request at fits in
                  absurd (
                    ground (
                      arith,
                      count-find_none (is_downloadable actor request_id owner) d.document_request
                          hidden,
                    ))
              | inr (r', found) ↦ (g, current, ground arith)
            ]
    ]

-- A request for a signed document is never ready, in no run: its approval takes no snapshot, and the
-- worker has nothing to render without one.
pub signed_never_ready :
    {s d : DocumentsDb} (request_id : ℕ) (r : DocumentRequest)
    → IsSound s
    → Runs s d
    → request_at request_id d ≡ some r
    → r.document_type ≡ DocumentType.signed_document
    → is_ready r ≡ false
signed_never_ready {d = d} request_id r v run at signed =
    ground (arith, (Runs-IsSound v run).renderable request_id)

-- However workers crash, are reaped and finish late, no job is claimed more than three times, and a
-- job that waits in the queue has been claimed at most twice.
pub attempts-le :
    {s d : DocumentsDb} (p : DocumentJob → Bool) (j : DocumentJob)
    → IsSound s
    → Runs s d
    → find_where p d.document_job ≡ some j
    → (j.attempts ≤ 3) × (is_queued j ≡ true → j.attempts ≤ 2)
attempts-le {d = d} p j v run found =
    let w = Runs-IsSound v run in
    elim (Bool-cases (is_overspent j)) [
      | inr left ↦ (ground arith, λ q. ground arith)
      | inl spent ↦
          absurd (ground (arith, w.bounded, find-count p is_overspent d.document_job found spent))
    ]

-- A request that has been decided is not reviewable by anyone.
reviewable_budget :
    (actor : Actor) (request_id : ℕ) (db : DocumentsDb) (r : DocumentRequest)
    → IsSound db
    → find_where (is_reviewable actor request_id) db.document_request ≡ some r
    → count_where (decides request_id) db.document_approval ≡ 0
reviewable_budget actor request_id db r v found =
    let at =
      find-weaken (is_reviewable actor request_id) (has_request_id request_id) db.document_request
        (λ x k. ground arith) found (v.keyed request_id) in
    let fits = find-holds (is_reviewable actor request_id) db.document_request found in
    ground (arith, v.decided request_id)

grants-le-decides :
    (request_id : ℕ) (rows : List DocumentApproval)
    → count_where (grants request_id) rows ≤ count_where (decides request_id) rows
grants-le-decides request_id rows =
    count_mono (grants request_id) (decides request_id) rows (λ x h. ground arith)

approve_granted :
    (env : DocEnv) (actor : Actor) (request_id : ℕ) (note : String) (db d : DocumentsDb)
    → approve env actor request_id note db ≡ ok d
    → 1 ≤ count_where (grants request_id) d.document_approval
unfolding write_approval new_approval
approve_granted env actor request_id note db d h =
    let (r, snapshot_id, snapshots, found, fits, fresh, made) =
      approve_inv env actor request_id note db d h in
    ground arith

refused_approve :
    (env : DocEnv) (actor : Actor) (request_id : ℕ) (note : String) (db d : DocumentsDb)
    → IsSound db
    → 1 ≤ count_where (decides request_id) db.document_approval
    → approve env actor request_id note db ≢ ok d
refused_approve env actor request_id note db d v decided h =
    let (r, snapshot_id, snapshots, found, fits, fresh, made) =
      approve_inv env actor request_id note db d h in
    omega (arith, reviewable_budget actor request_id db r v found)

refused_reject :
    (env : DocEnv) (actor : Actor) (request_id : ℕ) (note : String) (db d : DocumentsDb)
    → IsSound db
    → 1 ≤ count_where (decides request_id) db.document_approval
    → reject env actor request_id note db ≢ ok d
unfolding reject
refused_reject env actor request_id note db d v decided h =
    elim (Option-cases (find_where (is_reviewable actor request_id) db.document_request)) [
      | inl absent ↦
          let hidden =
            find_none-exists (is_reviewable actor request_id) db.document_request absent in
          ground arith
      | inr (r, found) ↦ omega (arith, reviewable_budget actor request_id db r v found)
    ]

-- Once a request is approved, no officer can reject it or approve it again, whatever officers,
-- students and workers do after the approval.
pub approve-reject :
    {s : DocumentsDb} (env env' : DocEnv) (actor actor' : Actor) (request_id : ℕ)
    (note note' : String) (db d e out : DocumentsDb)
    → IsSound s
    → Runs s db
    → approve env actor request_id note db ≡ ok d
    → Runs d e
    → (reject env' actor' request_id note' e ≢ ok out)
      × (approve env' actor' request_id note' e ≢ ok out)
approve-reject env env' actor actor' request_id note note' db d e out v before h after =
    let at = Runs-IsSound v before in
    let sound = Runs-IsSound (approve-IsSound env actor request_id note db d at h) after in
    let granted = approve_granted env actor request_id note db d h in
    let kept = (Runs-Keeps after).grants_kept request_id in
    let decided = grants-le-decides request_id e.document_approval in
    (
      λ q. refused_reject env' actor' request_id note' e out sound (omega arith) q,
      λ q. refused_approve env' actor' request_id note' e out sound (omega arith) q,
    )
