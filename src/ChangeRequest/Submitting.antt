-- ===== src/ChangeRequest/Submitting.antt =====
-- When a change request can be submitted: `submit` of change-request.service.ts.
use dbflow.Common.{true, ◌≡◌, ◌↔◌, inl, inr, none, some, length, Option-cases, arith}
use dbflow.Store.{
  Key, Actor, Db, Context, Status, same_status, AuditAction, Result, ok, err, ◌>>=◌, ◌>>◌, guard,
}
use dbflow.Store
use dbflow.Audit.{append_log}
use dbflow.ApprovalPolicy.{get_required}
use dbflow.ChangeRequest.StateMachine.{get_next_status}
use dbflow.ChangeRequest.Records.{find_cr, get_or_throw, slots_of, is_given, set_status}
use dbflow.ChangeRequest.Submit.{cr_log, submit_db}

-- The change request is a draft of the user, has a reviewer, and as many approvers as its environment asks for.
abbrev pub IsReady : Context → Db → Actor → Key → Store.ChangeRequest → Type 0
IsReady ctx db actor id cr =
    (cr.author_id ≡ actor.user_id)
    × (cr.status ≡ Status.draft)
    × (is_given cr.reviewer_id ≡ true)
    × (length (slots_of id db) ≡ get_required ctx db cr.target_env)

-- A submission goes through exactly when the change request exists and is ready; it is then SUBMITTED, with
-- one entry in the history and one in the audit log.
pub submit_iff :
    (ctx : Context) (db : Db) (actor : Actor) (id : Key) (after : Db)
    → (submit_db ctx db actor id ≡ ok after) ↔ (
        (cr : Store.ChangeRequest) × (find_cr id db ≡ some cr)
        × IsReady ctx db actor id cr
        × (after
            ≡ append_log
                (cr_log actor AuditAction.cr_submitted id)
                (set_status ctx id Status.draft Status.submitted actor.user_id none db)))
unfolding submit_db get_or_throw get_next_status
submit_iff ctx db actor id after = (
  λ e. elim (Option-cases (find_cr id db)) [
    | inl missing ↦ absurd (ground arith)
    | inr (cr, found) ↦
        (cr, found, (ground arith, ground arith, ground arith, ground arith), ground arith)
  ],
  λ (cr, found, (author, draft, given, count), result). ground arith,
)
