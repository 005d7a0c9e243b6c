-- ===== src/Http/Traced.antt =====
-- The status histories under any requests (Http).
use dbflow.Common.{◌≡◌, subst, inl, inr, Bool, Option, none, some, Bool-cases, arith}
use dbflow.Store.{Key, Actor, Db, Context, Failure, ok, Result-cases}
use dbflow.Audit.{record_log}
use dbflow.Auth.{validate, can_activate, is_login_url, audit_failure}
use dbflow.ApprovalPolicy.{update_policy}
use dbflow.SqlReview.{update_rule}
use dbflow.ApplySchedule
use dbflow.Users.{create_user, update_me}
use dbflow.TargetDatabases.{create_target, update_target_db, remove_target, encrypt_given}
use dbflow.Delegation.{create_delegation, delete_delegation}
use dbflow.ChangeRequest.Trace.{
  IsTraced, SameRequests, SameRequests-IsTraced, submit-IsTraced, review-IsTraced, approve-IsTraced,
}
use dbflow.ChangeRequest.Preparing.{IsUnused, create-IsTraced, set_assignees-IsTraced}
use dbflow.Http.{Request, required_roles, is_valid_body, handle, answer, serve}
use dbflow.Http.Controllers.{
  Runtime, ChangeRequestCall, change_request_handler, DelegationCall, delegation_handler,
  TargetCall, target_handler, UserCall, user_handler, approval_policy_handler, sql_review_handler,
  ScheduleCall, schedule_handler,
}

change_request_handler-IsTraced :
    (ctx : Context) (db : Db) (actor : Actor) (call : ChangeRequestCall) (after : Db)
    → IsUnused (ctx.fresh 0) db
    → change_request_handler ctx db actor call ≡ ok after
    → IsTraced db
    → IsTraced after
unfolding change_request_handler
change_request_handler-IsTraced ctx db actor (ChangeRequestCall.create dto) after unused e t =
    create-IsTraced ctx db actor dto after unused e t
change_request_handler-IsTraced ctx db actor (ChangeRequestCall.submit id) after unused e t =
    submit-IsTraced ctx db actor id after e t
change_request_handler-IsTraced ctx db actor (ChangeRequestCall.review id dto) after unused e t =
    review-IsTraced ctx db actor id dto after e t
change_request_handler-IsTraced ctx db actor (ChangeRequestCall.approve id dto) after unused e t =
    approve-IsTraced ctx db actor id dto after e t
change_request_handler-IsTraced ctx db actor (ChangeRequestCall.set_assignees id dto) after unused e
      t =
    set_assignees-IsTraced ctx db actor id dto after e t

target_handler-SameRequests :
    (rt : Runtime) (ctx : Context) (db : Db) (actor : Actor) (call : TargetCall) (after : Db)
    → target_handler rt ctx db actor call ≡ ok after
    → SameRequests db after
unfolding target_handler create_target update_target_db remove_target record_log
target_handler-SameRequests rt ctx db actor (TargetCall.create dto) after e = ground arith
target_handler-SameRequests rt ctx db actor (TargetCall.update id dto) after e =
    elim (Result-cases (encrypt_given rt.encrypt dto.password)) [
      | inl (stored, done) ↦ ground arith
      | inr (f, failed) ↦ ground arith
    ]
target_handler-SameRequests rt ctx db actor (TargetCall.remove id) after e = ground arith

-- A request of another controller.
abbrev IsOther : Request → Type 0
IsOther (Request.change_request call) = ⊥
IsOther request = Unit

handle-SameRequests :
    (rt : Runtime) (ctx : Context) (db : Db) (actor : Actor) (request : Request) (after : Db)
    → IsOther request
    → handle rt ctx db actor request ≡ ok after
    → SameRequests db after
unfolding handle delegation_handler create_delegation delete_delegation approval_policy_handler
    update_policy sql_review_handler update_rule schedule_handler ApplySchedule.create_window
    ApplySchedule.delete_window ApplySchedule.create_freeze ApplySchedule.delete_freeze user_handler
    create_user update_me record_log
handle-SameRequests rt ctx db actor (Request.change_request call) after o e = absurd o
handle-SameRequests rt ctx db actor (Request.delegation (DelegationCall.create dto)) after o e =
    ground arith
handle-SameRequests rt ctx db actor (Request.delegation (DelegationCall.remove id)) after o e =
    ground arith
handle-SameRequests rt ctx db actor (Request.approval_policy call) after o e = ground arith
handle-SameRequests rt ctx db actor (Request.sql_review call) after o e = ground arith
handle-SameRequests rt ctx db actor (Request.schedule (ScheduleCall.create_window dto)) after o e =
    ground arith
handle-SameRequests rt ctx db actor (Request.schedule (ScheduleCall.delete_window id)) after o e =
    ground arith
handle-SameRequests rt ctx db actor (Request.schedule (ScheduleCall.create_freeze dto)) after o e =
    ground arith
handle-SameRequests rt ctx db actor (Request.schedule (ScheduleCall.delete_freeze id)) after o e =
    ground arith
handle-SameRequests rt ctx db actor (Request.target call) after o e =
    target_handler-SameRequests rt ctx db actor call after e
handle-SameRequests rt ctx db actor (Request.user (UserCall.create dto)) after o e = ground arith
handle-SameRequests rt ctx db actor (Request.user (UserCall.update_me dto)) after o e = ground arith

handle-IsTraced :
    (rt : Runtime) (ctx : Context) (db : Db) (actor : Actor) (request : Request) (after : Db)
    → IsUnused (ctx.fresh 0) db
    → handle rt ctx db actor request ≡ ok after
    → IsTraced db
    → IsTraced after
unfolding handle
handle-IsTraced rt ctx db actor (Request.change_request call) after unused e t =
    change_request_handler-IsTraced ctx db actor call after unused e t
handle-IsTraced rt ctx db actor (Request.delegation call) after unused e t =
    SameRequests-IsTraced db after
      (handle-SameRequests rt ctx db actor (Request.delegation call) after tt e) t
handle-IsTraced rt ctx db actor (Request.approval_policy call) after unused e t =
    SameRequests-IsTraced db after
      (handle-SameRequests rt ctx db actor (Request.approval_policy call) after tt e) t
handle-IsTraced rt ctx db actor (Request.sql_review call) after unused e t =
    SameRequests-IsTraced db after
      (handle-SameRequests rt ctx db actor (Request.sql_review call) after tt e) t
handle-IsTraced rt ctx db actor (Request.schedule call) after unused e t =
    SameRequests-IsTraced db after
      (handle-SameRequests rt ctx db actor (Request.schedule call) after tt e) t
handle-IsTraced rt ctx db actor (Request.target call) after unused e t =
    SameRequests-IsTraced db after
      (handle-SameRequests rt ctx db actor (Request.target call) after tt e) t
handle-IsTraced rt ctx db actor (Request.user call) after unused e t =
    SameRequests-IsTraced db after
      (handle-SameRequests rt ctx db actor (Request.user call) after tt e) t

pub audit_failure-SameRequests :
    (ctx : Context) (is_login : Bool) (user : Option Actor) (failure : Failure) (db : Db)
    → SameRequests db (audit_failure ctx is_login user failure db)
unfolding audit_failure record_log
audit_failure-SameRequests ctx is_login user failure db = ground arith

answer-IsTraced :
    (rt : Runtime) (ctx : Context) (db : Db) (actor : Actor) (request : Request) (after : Db)
    → IsUnused (ctx.fresh 0) db
    → answer rt ctx db actor request ≡ ok after
    → IsTraced db
    → IsTraced after
unfolding answer
answer-IsTraced rt ctx db actor request after unused e t =
    elim (Bool-cases (can_activate (required_roles request) (some actor))) [
      | inr no' ↦ absurd (ground arith)
      | inl may ↦ elim (Bool-cases (is_valid_body rt request)) [
        | inr no' ↦ absurd (ground arith)
        | inl valid ↦ handle-IsTraced rt ctx db actor request after unused (ground arith) t
      ]
    ]

pub serve-IsTraced :
    (rt : Runtime) (ctx : Context) (db : Db) (sub : Key) (request : Request)
    → IsUnused (ctx.fresh 0) db
    → IsTraced db
    → IsTraced (serve rt ctx db sub request)
unfolding serve
serve-IsTraced rt ctx db sub request unused t = elim (Result-cases (validate db sub)) [
  | inr (failure, gone) ↦
      let same : audit_failure ctx (is_login_url ctx) none failure db
          ≡ serve rt ctx db sub request =
        ground arith in
      subst IsTraced same (
        SameRequests-IsTraced db (audit_failure ctx (is_login_url ctx) none failure db)
          (audit_failure-SameRequests ctx (is_login_url ctx) none failure db) t)
  | inl (actor, known) ↦ elim (Result-cases (answer rt ctx db actor request)) [
    | inr (failure, refused) ↦
        let same : audit_failure ctx (is_login_url ctx) (some actor) failure db
            ≡ serve rt ctx db sub request =
          ground arith in
        subst IsTraced same (
          SameRequests-IsTraced db (audit_failure ctx (is_login_url ctx) (some actor) failure db)
            (audit_failure-SameRequests ctx (is_login_url ctx) (some actor) failure db) t)
    | inl (after, done) ↦
        let same : after ≡ serve rt ctx db sub request = ground arith in
        subst IsTraced same (answer-IsTraced rt ctx db actor request after unused done t)
  ]
]
