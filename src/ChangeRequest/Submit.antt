-- ===== src/ChangeRequest/Submit.antt =====
-- `create`, `submit` and `setAssignees` of change-request.service.ts.
use dbflow.Common.{
  ℕ, suc, String, ◌==◌, Bool, true, false, not, ◌&&◌, ◌||◌, List, [], ◌∷◌, ◌++◌, Option, none, some,
  filter, length, map_index, update_where,
}
use dbflow.Store.{
  Key, Text, Role, same_role, TargetEnv, SqlType, Actor, Db, Context, Status, same_status, Approver,
  File, AuditAction, AuditTargetType, AuditTarget, AuditOutcome, Failure, bad_request, forbidden,
  internal, Message, Result, ok, err, ◌>>=◌, ◌>>◌, guard, commit,
}
use dbflow.Store
use dbflow.Audit.{build_data, append_log, record_log}
use dbflow.ApprovalPolicy.{get_required}
use dbflow.ChangeRequest.StateMachine.{TransitionAction, get_next_status}
use dbflow.ChangeRequest.Records.{
  get_or_throw, slots_of, set_status, is_given, assert_assignee_roles,
}
use dbflow.ChangeRequest.Detail.{Detail, to_detail, find_one}

pub record FileInput : Type 0 where
  pub filename : String
  pub sql_type : SqlType
  pub content : Text

pub record CreateDto : Type 0 where
  pub title : String
  pub description : String
  pub target_env : TargetEnv
  pub files : List FileInput
  pub reviewer_id : Option Key
  pub approver_ids : Option (List Key)

abbrev pub ids_given : Option (List Key) → List Key
ids_given none = []
ids_given (some ids) = ids

-- The slots made for a list of approvers: undecided, numbered in the order given. The n-th slot's
-- key is `fresh (suc n)`.
unfoldable pub new_slots : (ℕ → Key) → Key → List Key → List Approver
new_slots fresh id =
    map_index
      (λ i user. record {
        id = fresh (suc i);
        change_request_id = id;
        user_id = user;
        order = i;
        decision = none;
        comment = none;
        decided_at = none;
        decided_by_id = none;
      })
      0

unfoldable pub new_files : Key → List FileInput → List File
new_files id =
    map_index
      (λ i f. record {
        change_request_id = id;
        filename = f.filename;
        sql_type = f.sql_type;
        content = f.content;
        order = i;
      })
      0

abbrev pub cr_log : Actor → AuditAction → Key → Store.AuditLog
cr_log actor action id =
    build_data actor action AuditTargetType.change_request (AuditTarget.row id) AuditOutcome.success

abbrev pub new_cr : Context → Actor → CreateDto → Store.ChangeRequest
new_cr ctx actor dto = record {
  id = ctx.fresh 0;
  title = dto.title;
  description = dto.description;
  target_env = dto.target_env;
  status = Status.draft;
  author_id = actor.user_id;
  reviewer_id = dto.reviewer_id;
  created_at = ctx.now;
  updated_at = ctx.now;
}

-- `create`, the writes.
unfoldable pub create_db : Context → Db → Actor → CreateDto → Result Db
unfolding new_files new_slots
create_db ctx db actor dto = do
  assert_assignee_roles db dto.reviewer_id dto.approver_ids
  let cr = new_cr ctx actor dto
  ok (
      record_log ctx (cr_log actor AuditAction.cr_created cr.id) (record db {
        change_requests = db.change_requests ++ (cr ∷ []);
        approvers = db.approvers ++ new_slots ctx.fresh cr.id (ids_given dto.approver_ids);
        files = db.files ++ new_files cr.id dto.files;
      }))

-- `create`.
unfoldable pub create : Context → Db → Actor → CreateDto → Db × Result Detail
unfolding create_db
create ctx db actor dto =
    commit db (create_db ctx db actor dto)
      (λ after. ok (to_detail after (new_cr ctx actor dto) none [] []))

-- `submit` up to the refreshed view. The source reads the status before its transaction, without a lock;
-- here the read and the write are one step, as for requests that do not overlap.
unfoldable pub submit_db : Context → Db → Actor → Key → Result Db
submit_db ctx db actor id = do
  cr ← get_or_throw db id
  guard (cr.author_id == actor.user_id) (forbidden Message.submit_author_only)
  let required = get_required ctx db cr.target_env
  guard (is_given cr.reviewer_id && (length (slots_of id db) == required))
      (bad_request (Message.submit_requires_assignees required))
  to ← get_next_status cr.status TransitionAction.submit
  ok (
      append_log (cr_log actor AuditAction.cr_submitted id)
        (set_status ctx id cr.status to actor.user_id none db))

-- `submit`.
unfoldable pub submit : Context → Db → Actor → Key → Db × Result Detail
submit ctx db actor id =
    commit db (submit_db ctx db actor id)
      (λ after. do cr ← get_or_throw after id; ok (to_detail after cr none [] []))

-- A field may be missing, or null (`some none`).
pub record AssigneesDto : Type 0 where
  pub reviewer_id : Option (Option Key)
  pub approver_ids : Option (Option (List Key))

-- A field as the checks of the roles take it, for which null counts as missing.
abbrev pub unless_null : {A : Type 0} → Option (Option A) → Option A
unless_null (some (some a)) = some a
unless_null _ = none

-- `null.length` and `null.map` throw.
is_null : {A : Type 0} → Option (Option A) → Bool
is_null (some none) = true
is_null _ = false

abbrev pub set_reviewer : Context → Option (Option Key) → Store.ChangeRequest → Store.ChangeRequest
set_reviewer ctx none cr = cr
set_reviewer ctx (some k) cr = record cr { reviewer_id = k; updated_at = ctx.now }

replace_slots : Context → Key → Option (List Key) → List Approver → List Approver
replace_slots ctx id none slots = slots
replace_slots ctx id (some ids) slots =
    filter (λ a. not (a.change_request_id == id)) slots ++ new_slots ctx.fresh id ids

-- `dto.approverIds !== undefined && !isDraft` asks for the required number.
count_ok : Bool → ℕ → Option (List Key) → Bool
count_ok is_draft required none = true
count_ok is_draft required (some ids) = is_draft || (length ids == required)

-- `setAssignees`, the checks and the writes.
unfoldable pub set_assignees_db : Context → Db → Actor → Key → AssigneesDto → Result Db
unfolding replace_slots count_ok new_slots is_null
set_assignees_db ctx db actor id dto = do
  cr ← get_or_throw db id
  let is_draft = same_status cr.status Status.draft
  guard ((is_draft && (cr.author_id == actor.user_id)) || same_role actor.role Role.admin)
      (forbidden Message.assignees_change_forbidden)
  assert_assignee_roles db (unless_null dto.reviewer_id) (unless_null dto.approver_ids)
  guard (not (is_null dto.approver_ids)) internal
  let required = get_required ctx db cr.target_env
  guard (count_ok is_draft required (unless_null dto.approver_ids))
      (bad_request (Message.approver_count_mismatch required))
  ok (
      record_log ctx (cr_log actor AuditAction.cr_assignees_changed id) (record db {
        change_requests =
            update_where (λ cr. cr.id == id) (set_reviewer ctx dto.reviewer_id) db.change_requests;
        approvers = replace_slots ctx id (unless_null dto.approver_ids) db.approvers;
      }))

-- `setAssignees`: the response is what the author sees.
unfoldable pub set_assignees : Context → Db → Actor → Key → AssigneesDto → Db × Result Detail
set_assignees ctx db actor id dto = commit db (set_assignees_db ctx db actor id dto) (λ after. do
  cr ← get_or_throw db id
  find_one ctx after (record { user_id = cr.author_id; role = Role.developer }) id)
