-- ===== src/Documents/Lifecycle/Service.antt =====
-- Filing a request keeps what holds of requests, decisions and jobs (backend/src/documents/service.rs).
use mathlib.Core.Path.{subst}
use ubedtech.Prelude.{
  ◌≡◌, ◌⊎◌, refl, sym, true, false, none, arith, exists_where, Option-cases, Bool-cases, inl, inr,
}
use ubedtech.Prelude.Counts.{count-exists, exists-find_none}
use ubedtech.Shared.Actor.{Actor, require_student_self}
use ubedtech.Shared.Error.{ok, Result-cases}
use ubedtech.Documents.State.{
  DocumentRequest, DocumentsDb, DocEnv, RequestDocumentCommand, DocumentRequestReceipt, is_pending,
  has_request_id,
}
use ubedtech.Documents.Requests.{
  filed, is_unique_violation, insert_request, existing_request, request_for_self, new_request,
  validate_request,
}
use ubedtech.Documents.Lifecycle.{request_at, IsSound}

-- A pending request under a fresh id.
filed-IsSound :
    (actor : Actor) (r : DocumentRequest) (db : DocumentsDb)
    → IsSound db
    → request_at r.id db ≡ none
    → is_pending r ≡ true
    → r.current_snapshot_id ≡ none
    → exists_where (has_request_id r.id) db.document_request ≡ false
    → IsSound (filed actor r db)
filed-IsSound actor r db v absent p n fresh = record {
  decided = λ id. ground (arith, v.decided id);
  worked = v.worked;
  advanced = λ id. ground (arith, v.advanced id);
  delivered = λ id. ground (arith, v.delivered id);
  single = v.single;
  renderable = λ id. ground (arith, v.renderable id);
  numbered = v.numbered;
  keyed = λ id.
      ground (arith, v.keyed id, count-exists (has_request_id r.id) db.document_request fresh);
  bounded = v.bounded;
}

-- What filing leaves: the same state, or one more pending request under an id that was free.
pub request_for_self_inv :
    (env : DocEnv) (actor : Actor) (command : RequestDocumentCommand) (before db : DocumentsDb)
    (out : DocumentRequestReceipt × DocumentsDb)
    → request_for_self env actor command before db ≡ ok out
    → (out.1 ≡ db)
      ⊎ ((r : DocumentRequest) × (is_pending r ≡ true)
          × (r.current_snapshot_id ≡ none)
          × (exists_where (has_request_id r.id) db.document_request ≡ false)
          × (out.1 ≡ filed actor r db))
unfolding request_for_self insert_request is_unique_violation new_request
request_for_self_inv env actor command before db out h =
    elim (Result-cases (require_student_self actor)) [
      | inr (e, q) ↦ absurd (ground arith)
      | inl (student_id, own) ↦ elim (Result-cases (validate_request command)) [
        | inr (e, q) ↦ absurd (ground arith)
        | inl (type, valid) ↦
            elim (Option-cases (existing_request actor student_id command before)) [
              | inr (receipt, there) ↦ inl (ground arith)
              | inl nothing ↦
                  let r = new_request env actor student_id type command in
                  elim (Bool-cases (is_unique_violation r db)) [
                    | inl twice ↦
                        elim (Option-cases (existing_request actor student_id command db)) [
                          | inl none' ↦ absurd (ground arith)
                          | inr (receipt, there) ↦ inl (ground arith)
                        ]
                    | inr fresh ↦ inr (r, refl, refl, ground arith, ground arith)
                  ]
            ]
      ]
    ]

pub request_for_self-IsSound :
    (env : DocEnv) (actor : Actor) (command : RequestDocumentCommand) (before db : DocumentsDb)
    (out : DocumentRequestReceipt × DocumentsDb)
    → IsSound db
    → request_for_self env actor command before db ≡ ok out
    → IsSound out.1
request_for_self-IsSound env actor command before db out v h =
    elim (request_for_self_inv env actor command before db out h) [
      | inl same ↦ subst IsSound (sym same) v
      | inr (r, p, n, fresh, made) ↦ subst IsSound (sym made) (
          filed-IsSound actor r db v
            (exists-find_none (has_request_id r.id) db.document_request fresh) p n fresh)
    ]
