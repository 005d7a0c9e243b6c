-- ===== src/Http/Frames.antt =====
-- What the services leave alone, for the requests of Http.
use dbflow.Common.{
  ◌≡◌, refl, inl, inr, Bool, Option, String, List, [], ◌∷◌, map, update_where, ◌==◌, arith,
}
use dbflow.Store.{Key, Role, User, Actor, Db, Context, Failure, ok, Result-cases, Status}
use dbflow.Audit.{record_log}
use dbflow.ChangeRequest.Submit.{CreateDto, AssigneesDto, create_db, submit_db, set_assignees_db}
use dbflow.ChangeRequest.Decide.{DecisionDto, review_db, approve_db, decide_slot, finish_approval}
use dbflow.ChangeRequest.Records.{set_status}
use dbflow.Auth.{audit_failure}
use dbflow.Users.{UpdateMeDto, change_me, create_user, update_me, find_by_id}
use dbflow.TargetDatabases.{
  create_target, update_target_db, remove_target, get_target_or_throw, encrypt_given,
}
use dbflow.Delegation.{create_delegation, delete_delegation}
use dbflow.Http.Controllers.{
  Runtime, ChangeRequestCall, change_request_handler, DelegationCall, delegation_handler,
  TargetCall, target_handler, UserCall, user_handler, ApprovalPolicyCall, approval_policy_handler,
  SqlReviewCall, sql_review_handler, ScheduleCall, schedule_handler,
}
use dbflow.ApprovalPolicy.{update_policy}
use dbflow.SqlReview.{update_rule}
use dbflow.ApplySchedule

-- The tables of the settings: policies, rules, windows and freezes.
abbrev pub SameSettings : Db → Db → Type 0
SameSettings db after =
    (after.approval_policies ≡ db.approval_policies)
    × (after.sql_rules ≡ db.sql_rules)
    × (after.windows ≡ db.windows)
    × (after.freezes ≡ db.freezes)

-- Settings, targets and accounts.
abbrev pub SameRest : Db → Db → Type 0
SameRest db after = SameSettings db after × (after.targets ≡ db.targets) × (after.users ≡ db.users)

set_status-SameRest :
    (ctx : Context) (id : Key) (from to : Status) (user : Key) (remark : _) (db : Db)
    → SameRest db (set_status ctx id from to user remark db)
unfolding set_status
set_status-SameRest ctx id from to user remark db = ((refl, refl, refl, refl), refl, refl)

create_db-SameRest :
    (ctx : Context) (db : Db) (actor : Actor) (dto : CreateDto) (after : Db)
    → create_db ctx db actor dto ≡ ok after
    → SameRest db after
unfolding create_db record_log
create_db-SameRest ctx db actor dto after e = ground arith

submit_db-SameRest :
    (ctx : Context) (db : Db) (actor : Actor) (id : Key) (after : Db)
    → submit_db ctx db actor id ≡ ok after
    → SameRest db after
unfolding submit_db set_status
submit_db-SameRest ctx db actor id after e = ground arith

set_assignees_db-SameRest :
    (ctx : Context) (db : Db) (actor : Actor) (id : Key) (dto : AssigneesDto) (after : Db)
    → set_assignees_db ctx db actor id dto ≡ ok after
    → SameRest db after
unfolding set_assignees_db record_log
set_assignees_db-SameRest ctx db actor id dto after e = ground arith

review_db-SameRest :
    (ctx : Context) (db : Db) (actor : Actor) (id : Key) (dto : DecisionDto) (after : Db)
    → review_db ctx db actor id dto ≡ ok after
    → SameRest db after
unfolding review_db set_status
review_db-SameRest ctx db actor id dto after e = ground arith

approve_db-SameRest :
    (ctx : Context) (db : Db) (actor : Actor) (id : Key) (dto : DecisionDto) (after : Db)
    → approve_db ctx db actor id dto ≡ ok after
    → SameRest db after
unfolding approve_db set_status decide_slot finish_approval
approve_db-SameRest ctx db actor id dto after e = ground arith

pub change_request_handler-SameRest :
    (ctx : Context) (db : Db) (actor : Actor) (call : ChangeRequestCall) (after : Db)
    → change_request_handler ctx db actor call ≡ ok after
    → SameRest db after
unfolding change_request_handler
change_request_handler-SameRest ctx db actor (ChangeRequestCall.create dto) after e =
    create_db-SameRest ctx db actor dto after e
change_request_handler-SameRest ctx db actor (ChangeRequestCall.submit id) after e =
    submit_db-SameRest ctx db actor id after e
change_request_handler-SameRest ctx db actor (ChangeRequestCall.review id dto) after e =
    review_db-SameRest ctx db actor id dto after e
change_request_handler-SameRest ctx db actor (ChangeRequestCall.approve id dto) after e =
    approve_db-SameRest ctx db actor id dto after e
change_request_handler-SameRest ctx db actor (ChangeRequestCall.set_assignees id dto) after e =
    set_assignees_db-SameRest ctx db actor id dto after e

pub delegation_handler-SameRest :
    (rt : Runtime) (ctx : Context) (db : Db) (actor : Actor) (call : DelegationCall) (after : Db)
    → delegation_handler rt ctx db actor call ≡ ok after
    → SameRest db after
unfolding delegation_handler create_delegation delete_delegation record_log
delegation_handler-SameRest rt ctx db actor (DelegationCall.create dto) after e = ground arith
delegation_handler-SameRest rt ctx db actor (DelegationCall.remove id) after e = ground arith

pub target_handler-SameSettings :
    (rt : Runtime) (ctx : Context) (db : Db) (actor : Actor) (call : TargetCall) (after : Db)
    → target_handler rt ctx db actor call ≡ ok after
    → SameSettings db after × (after.users ≡ db.users)
unfolding target_handler create_target update_target_db remove_target get_target_or_throw record_log
target_handler-SameSettings rt ctx db actor (TargetCall.create dto) after e = ground arith
target_handler-SameSettings rt ctx db actor (TargetCall.update id dto) after e =
    elim (Result-cases (encrypt_given rt.encrypt dto.password)) [
      | inl (stored, done) ↦ ground arith
      | inr (f, failed) ↦ ground arith
    ]
target_handler-SameSettings rt ctx db actor (TargetCall.remove id) after e = ground arith

-- What an account is trusted with.
abbrev pub standing : User → Key × Role × String × String
standing u = (u.id, u.role, u.email, u.password_hash)

map-update_where_kept :
    (id : Key) (dto : UpdateMeDto) (users : List User)
    → map standing (update_where (λ u. u.id == id) (change_me dto) users) ≡ map standing users
map-update_where_kept id dto [] = refl
map-update_where_kept id dto (u ∷ users) = ground (arith, map-update_where_kept id dto users)

pub user_handler-SameSettings :
    (rt : Runtime) (ctx : Context) (db : Db) (actor : Actor) (call : UserCall) (after : Db)
    → user_handler rt ctx db actor call ≡ ok after
    → SameSettings db after × (after.targets ≡ db.targets)
unfolding user_handler create_user update_me find_by_id record_log
user_handler-SameSettings rt ctx db actor (UserCall.create dto) after e = ground arith
user_handler-SameSettings rt ctx db actor (UserCall.update_me dto) after e = ground arith

pub update_me-standing :
    (ctx : Context) (db : Db) (id : Key) (dto : UpdateMeDto) (actor : Actor) (after : Db)
    → update_me ctx db id dto actor ≡ ok after
    → map standing after.users ≡ map standing db.users
unfolding update_me find_by_id record_log
update_me-standing ctx db id dto actor after e =
    let kept = map-update_where_kept id dto db.users in ground arith

pub audit_failure-SameRest :
    (ctx : Context) (is_login : Bool) (user : Option Actor) (failure : Failure) (db : Db)
    → SameRest db (audit_failure ctx is_login user failure db)
unfolding audit_failure record_log
audit_failure-SameRest ctx is_login user failure db = ground arith

pub approval_policy_handler-others :
    (ctx : Context) (db : Db) (actor : Actor) (call : ApprovalPolicyCall) (after : Db)
    → approval_policy_handler ctx db actor call ≡ ok after
    → (after.users ≡ db.users) × (after.targets ≡ db.targets)
unfolding approval_policy_handler update_policy record_log
approval_policy_handler-others ctx db actor call after e = ground arith

pub sql_review_handler-others :
    (ctx : Context) (db : Db) (actor : Actor) (call : SqlReviewCall) (after : Db)
    → sql_review_handler ctx db actor call ≡ ok after
    → (after.users ≡ db.users) × (after.targets ≡ db.targets)
unfolding sql_review_handler update_rule record_log
sql_review_handler-others ctx db actor call after e = ground arith

pub schedule_handler-others :
    (rt : Runtime) (ctx : Context) (db : Db) (actor : Actor) (call : ScheduleCall) (after : Db)
    → schedule_handler rt ctx db actor call ≡ ok after
    → (after.users ≡ db.users) × (after.targets ≡ db.targets)
unfolding schedule_handler ApplySchedule.create_window ApplySchedule.delete_window
    ApplySchedule.create_freeze ApplySchedule.delete_freeze record_log
schedule_handler-others rt ctx db actor (ScheduleCall.create_window dto) after e = ground arith
schedule_handler-others rt ctx db actor (ScheduleCall.delete_window id) after e = ground arith
schedule_handler-others rt ctx db actor (ScheduleCall.create_freeze dto) after e = ground arith
schedule_handler-others rt ctx db actor (ScheduleCall.delete_freeze id) after e = ground arith
