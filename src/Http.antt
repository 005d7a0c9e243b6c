-- ===== src/Http.antt =====
-- A request to the API that changes its state, from the token to the answer: the JWT guard, the roles
-- guard (apps/api/src/auth), the validation of the body, the handler, and the exception filter
-- (apps/api/src/audit/audit-exception.filter.ts). The requests that reach a target database are
-- modelled in Apply; those that only read are in the services' modules.
pub mod Validation
pub mod Controllers
pub mod Frames
pub mod Traced
pub mod Runs
pub mod Confined
pub mod Ranges
pub mod Bounds
use dbflow.Common.{ℕ, String, Bool, true, false, List, [], ◌∷◌, Option, none, some, if◌then◌else◌}
use dbflow.Store.{
  Key, Role, Actor, Db, Context, Message, Failure, bad_request, forbidden, Result, ok, err,
}
use dbflow.Auth.{validate, can_activate, is_login_url, audit_failure}
use dbflow.Http.Validation.{is_valid_policy, is_valid_rule}
use dbflow.Http.Controllers.{
  Runtime, ChangeRequestCall, change_request_roles, change_request_body, change_request_handler,
  DelegationCall, delegation_body, delegation_handler, ApprovalPolicyCall, approval_policy_handler,
  SqlReviewCall, sql_review_handler, ScheduleCall, schedule_body, schedule_handler, TargetCall,
  target_body, target_handler, UserCall, user_roles, user_body, user_handler,
}

pub data Request : Type 0 where
  change_request : ChangeRequestCall → Request
  delegation : DelegationCall → Request
  approval_policy : ApprovalPolicyCall → Request
  sql_review : SqlReviewCall → Request
  schedule : ScheduleCall → Request
  target : TargetCall → Request
  user : UserCall → Request

-- The roles of `@Roles`, on the handler or on its class.
unfoldable pub required_roles : Request → List Role
unfolding change_request_roles user_roles
required_roles (Request.change_request call) = change_request_roles call
required_roles (Request.delegation call) = []
required_roles (Request.approval_policy call) = Role.admin ∷ []
required_roles (Request.sql_review call) = Role.admin ∷ []
required_roles (Request.schedule call) = Role.admin ∷ []
required_roles (Request.target call) = Role.approver ∷ []
required_roles (Request.user call) = user_roles call

-- `ValidationPipe` of apps/api/src/main.ts.
unfoldable pub is_valid_body : Runtime → Request → Bool
unfolding change_request_body delegation_body schedule_body target_body user_body is_valid_policy
    is_valid_rule
is_valid_body rt (Request.change_request call) = change_request_body call
is_valid_body rt (Request.delegation call) = delegation_body call
is_valid_body rt (Request.approval_policy call) = is_valid_policy call.required_approvals
is_valid_body rt (Request.sql_review call) = is_valid_rule call.rule_key
is_valid_body rt (Request.schedule call) = schedule_body call
is_valid_body rt (Request.target call) = target_body call
is_valid_body rt (Request.user call) = user_body rt call

unfoldable pub handle : Runtime → Context → Db → Actor → Request → Result Db
handle rt ctx db actor (Request.change_request call) = change_request_handler ctx db actor call
handle rt ctx db actor (Request.delegation call) = delegation_handler rt ctx db actor call
handle rt ctx db actor (Request.approval_policy call) = approval_policy_handler ctx db actor call
handle rt ctx db actor (Request.sql_review call) = sql_review_handler ctx db actor call
handle rt ctx db actor (Request.schedule call) = schedule_handler rt ctx db actor call
handle rt ctx db actor (Request.target call) = target_handler rt ctx db actor call
handle rt ctx db actor (Request.user call) = user_handler rt ctx db actor call

-- The answer to a request of an authenticated user: guard, validation, handler.
unfoldable pub answer : Runtime → Context → Db → Actor → Request → Result Db
unfolding can_activate
answer rt ctx db actor request =
    if can_activate (required_roles request) (some actor)
    then (if is_valid_body rt request
        then handle rt ctx db actor request
        else err (bad_request Message.invalid_body))
    else err (forbidden Message.insufficient_role)

-- The database after a request with a token of the account `sub`.
unfoldable pub serve : Runtime → Context → Db → Key → Request → Db
unfolding audit_failure
serve rt ctx db sub request = elim (validate db sub) [
  | err failure ↦ audit_failure ctx (is_login_url ctx) none failure db
  | ok actor ↦ elim (answer rt ctx db actor request) [
    | ok after ↦ after
    | err failure ↦ audit_failure ctx (is_login_url ctx) (some actor) failure db
  ]
]

-- Requests one after the other, each in its context and with its account.
unfoldable pub serve_all : Runtime → List (Context × Key × Request) → Db → Db
serve_all rt [] db = db
serve_all rt ((ctx, sub, request) ∷ requests) db =
    serve_all rt requests (serve rt ctx db sub request)
