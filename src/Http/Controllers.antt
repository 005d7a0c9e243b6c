-- ===== src/Http/Controllers.antt =====
-- The handlers of the controllers that change the state of the API: apps/api/src/*/*.controller.ts. For
-- each controller its requests, the roles that `@Roles` names (none: every user), the constraints of
-- the body, and the call of the service.
use dbflow.Common.{ℕ, String, Bool, true, List, [], ◌∷◌, Option}
use dbflow.Store.{Key, Text, Role, TargetEnv, SqlReviewLevel, Actor, Db, Context, Result, ok, err}
use dbflow.Users
use dbflow.Users.{CreateUserDto, UpdateMeDto, create_user}
use dbflow.TargetDatabases.{
  CreateTargetDto, UpdateTargetDto, create_target, update_target_db, remove_target,
}
use dbflow.ApprovalPolicy.{update_policy}
use dbflow.SqlReview.{update_rule}
use dbflow.ApplySchedule
use dbflow.ApplySchedule.{WindowDto, FreezeDto}
use dbflow.Delegation
use dbflow.Delegation.{create_delegation, delete_delegation}
use dbflow.ChangeRequest.Submit
use dbflow.ChangeRequest.Submit.{AssigneesDto, create_db, submit_db, set_assignees_db}
use dbflow.ChangeRequest.Decide.{DecisionDto, review_db, approve_db}
use dbflow.Http.Validation.{
  is_valid_window, is_valid_freeze, is_valid_delegation, is_valid_user, is_valid_me,
  is_valid_target, is_valid_target_update, is_valid_change_request, is_valid_decision,
}

-- What the handlers take from libraries: dates, the hash of a password, the check of an address and the
-- encryption of a credential.
pub record Runtime : Type 0 where
  pub parse_date : String → Option ℕ
  pub hash : String → String
  pub is_email : String → Bool
  pub encrypt : Text → Option Text

-- A handler that answers with an error has written nothing.
abbrev written : {A : Type 0} → Db × Result A → Result Db
written (after, ok answer) = ok after
written (after, err failure) = err failure

pub data ChangeRequestCall : Type 0 where
  create : Submit.CreateDto → ChangeRequestCall
  submit : Key → ChangeRequestCall
  review approve : Key → DecisionDto → ChangeRequestCall
  set_assignees : Key → AssigneesDto → ChangeRequestCall

unfoldable pub change_request_roles : ChangeRequestCall → List Role
change_request_roles (ChangeRequestCall.create dto) = Role.developer ∷ []
change_request_roles (ChangeRequestCall.submit id) = Role.developer ∷ []
change_request_roles (ChangeRequestCall.review id dto) = Role.reviewer ∷ []
change_request_roles (ChangeRequestCall.approve id dto) = Role.approver ∷ []
change_request_roles (ChangeRequestCall.set_assignees id dto) = []

unfoldable pub change_request_body : ChangeRequestCall → Bool
unfolding is_valid_change_request is_valid_decision
change_request_body (ChangeRequestCall.create dto) = is_valid_change_request dto
change_request_body (ChangeRequestCall.submit id) = true
change_request_body (ChangeRequestCall.review id dto) = is_valid_decision dto
change_request_body (ChangeRequestCall.approve id dto) = is_valid_decision dto
change_request_body (ChangeRequestCall.set_assignees id dto) = true

unfoldable pub change_request_handler : Context → Db → Actor → ChangeRequestCall → Result Db
change_request_handler ctx db user (ChangeRequestCall.create dto) = create_db ctx db user dto
change_request_handler ctx db user (ChangeRequestCall.submit id) = submit_db ctx db user id
change_request_handler ctx db user (ChangeRequestCall.review id dto) = review_db ctx db user id dto
change_request_handler ctx db user (ChangeRequestCall.approve id dto) =
    approve_db ctx db user id dto
change_request_handler ctx db user (ChangeRequestCall.set_assignees id dto) =
    set_assignees_db ctx db user id dto

pub data DelegationCall : Type 0 where
  create : Delegation.CreateDto → DelegationCall
  remove : Key → DelegationCall

unfoldable pub delegation_body : DelegationCall → Bool
unfolding is_valid_delegation
delegation_body (DelegationCall.create dto) = is_valid_delegation dto
delegation_body (DelegationCall.remove id) = true

unfoldable pub delegation_handler : Runtime → Context → Db → Actor → DelegationCall → Result Db
delegation_handler rt ctx db user (DelegationCall.create dto) =
    create_delegation rt.parse_date ctx db dto user
delegation_handler rt ctx db user (DelegationCall.remove id) = delete_delegation ctx db id user

-- `PATCH` of apps/api/src/approval-policy/approval-policy.controller.ts.
pub record ApprovalPolicyCall : Type 0 where
  pub env : TargetEnv
  pub required_approvals : ℕ

unfoldable pub approval_policy_handler : Context → Db → Actor → ApprovalPolicyCall → Result Db
approval_policy_handler ctx db user dto =
    ok (update_policy ctx db dto.env dto.required_approvals user)

-- `PATCH` of apps/api/src/sql-review/sql-review.controller.ts.
pub record SqlReviewCall : Type 0 where
  pub env : TargetEnv
  pub rule_key : String
  pub level : SqlReviewLevel

unfoldable pub sql_review_handler : Context → Db → Actor → SqlReviewCall → Result Db
sql_review_handler ctx db user dto = update_rule ctx db dto.env dto.rule_key dto.level user

pub data ScheduleCall : Type 0 where
  create_window : WindowDto → ScheduleCall
  delete_window : Key → ScheduleCall
  create_freeze : FreezeDto → ScheduleCall
  delete_freeze : Key → ScheduleCall

unfoldable pub schedule_body : ScheduleCall → Bool
unfolding is_valid_window is_valid_freeze
schedule_body (ScheduleCall.create_window dto) = is_valid_window dto
schedule_body (ScheduleCall.delete_window id) = true
schedule_body (ScheduleCall.create_freeze dto) = is_valid_freeze dto
schedule_body (ScheduleCall.delete_freeze id) = true

unfoldable pub schedule_handler : Runtime → Context → Db → Actor → ScheduleCall → Result Db
schedule_handler rt ctx db user (ScheduleCall.create_window dto) =
    ApplySchedule.create_window ctx db dto user
schedule_handler rt ctx db user (ScheduleCall.delete_window id) =
    ApplySchedule.delete_window ctx db id user
schedule_handler rt ctx db user (ScheduleCall.create_freeze dto) =
    ApplySchedule.create_freeze rt.parse_date ctx db dto user
schedule_handler rt ctx db user (ScheduleCall.delete_freeze id) =
    ApplySchedule.delete_freeze ctx db id user

pub data TargetCall : Type 0 where
  create : CreateTargetDto → TargetCall
  update : Key → UpdateTargetDto → TargetCall
  remove : Key → TargetCall

unfoldable pub target_body : TargetCall → Bool
unfolding is_valid_target is_valid_target_update
target_body (TargetCall.create dto) = is_valid_target dto
target_body (TargetCall.update id dto) = is_valid_target_update dto
target_body (TargetCall.remove id) = true

unfoldable pub target_handler : Runtime → Context → Db → Actor → TargetCall → Result Db
target_handler rt ctx db user (TargetCall.create dto) =
    written (create_target rt.encrypt ctx db dto user)
target_handler rt ctx db user (TargetCall.update id dto) =
    update_target_db rt.encrypt ctx db id dto user
target_handler rt ctx db user (TargetCall.remove id) = remove_target ctx db id user

pub data UserCall : Type 0 where
  create : CreateUserDto → UserCall
  update_me : UpdateMeDto → UserCall

unfoldable pub user_roles : UserCall → List Role
user_roles (UserCall.create dto) = Role.admin ∷ []
user_roles (UserCall.update_me dto) = []

unfoldable pub user_body : Runtime → UserCall → Bool
unfolding is_valid_user is_valid_me
user_body rt (UserCall.create dto) = is_valid_user rt.is_email dto
user_body rt (UserCall.update_me dto) = is_valid_me dto

unfoldable pub user_handler : Runtime → Context → Db → Actor → UserCall → Result Db
user_handler rt ctx db user (UserCall.create dto) = create_user rt.hash ctx db dto user
user_handler rt ctx db user (UserCall.update_me dto) = Users.update_me ctx db user.user_id dto user
