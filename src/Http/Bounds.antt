-- ===== src/Http/Bounds.antt =====
-- The stored settings stay in their ranges (Http).
use dbflow.Common.{
  ◌≤◌, ◌≡◌, sym, subst, inl, inr, true, List, [], ◌∷◌, none, some, find, All, All-In, find-In,
  Bool-cases, Option-cases, arith,
}
use dbflow.Store.{Key, TargetEnv, same_env, Actor, Db, Context, ok, Result-cases}
use dbflow.Audit.{record_log}
use dbflow.Auth.{validate, can_activate, is_login_url, audit_failure}
use dbflow.ApprovalPolicy.{upsert_policy, update_policy, get_required, find_policy}
use dbflow.SqlReview.{update_rule}
use dbflow.Http.{Request, required_roles, is_valid_body, handle, answer, serve, serve_all}
use dbflow.Http.Validation.{is_valid_policy}
use dbflow.Http.Controllers.{
  Runtime, ApprovalPolicyCall, approval_policy_handler, SqlReviewCall, sql_review_handler,
}
use dbflow.Http.Frames.{
  change_request_handler-SameRest, delegation_handler-SameRest, target_handler-SameSettings,
  user_handler-SameSettings, approval_policy_handler-others, sql_review_handler-others,
  schedule_handler-others, audit_failure-SameRest,
}
use dbflow.Http.Ranges.{
  IsPolicy, IsWindow, IsTarget, IsBounded, upsert_policy-IsPolicy, SameRest-IsBounded,
  schedule_handler-IsWindow, schedule_handler-policies, target_handler-IsTarget,
}

policy-IsBounded :
    (ctx : Context) (db : Db) (actor : Actor) (call : ApprovalPolicyCall) (after : Db)
    → is_valid_policy call.required_approvals ≡ true
    → approval_policy_handler ctx db actor call ≡ ok after
    → IsBounded db
    → IsBounded after
unfolding approval_policy_handler update_policy record_log
policy-IsBounded ctx db actor call after v e (p, w, t) =
    let others = approval_policy_handler-others ctx db actor call after e in
    let rows : upsert_policy call.env call.required_approvals db.approval_policies
        ≡ after.approval_policies =
      ground arith in
    let windows : db.windows ≡ after.windows = ground arith in
    (
      subst (All IsPolicy) rows
          (upsert_policy-IsPolicy call.env call.required_approvals db.approval_policies v p),
      subst (All IsWindow) windows w,
      subst (All IsTarget) (sym others.1) t,
    )

rule-IsBounded :
    (ctx : Context) (db : Db) (actor : Actor) (call : SqlReviewCall) (after : Db)
    → sql_review_handler ctx db actor call ≡ ok after
    → IsBounded db
    → IsBounded after
unfolding sql_review_handler update_rule record_log
rule-IsBounded ctx db actor call after e (p, w, t) =
    let policies : db.approval_policies ≡ after.approval_policies = ground arith in
    let windows : db.windows ≡ after.windows = ground arith in
    (
      subst (All IsPolicy) policies p,
      subst (All IsWindow) windows w,
      subst (All IsTarget) (sym (sql_review_handler-others ctx db actor call after e).1) t,
    )

handle-IsBounded :
    (rt : Runtime) (ctx : Context) (db : Db) (actor : Actor) (request : Request) (after : Db)
    → is_valid_body rt request ≡ true
    → handle rt ctx db actor request ≡ ok after
    → IsBounded db
    → IsBounded after
unfolding handle is_valid_body
handle-IsBounded rt ctx db actor (Request.change_request call) after v e h =
    SameRest-IsBounded db after (change_request_handler-SameRest ctx db actor call after e) h
handle-IsBounded rt ctx db actor (Request.delegation call) after v e h =
    SameRest-IsBounded db after (delegation_handler-SameRest rt ctx db actor call after e) h
handle-IsBounded rt ctx db actor (Request.approval_policy call) after v e h =
    policy-IsBounded ctx db actor call after v e h
handle-IsBounded rt ctx db actor (Request.sql_review call) after v e h =
    rule-IsBounded ctx db actor call after e h
handle-IsBounded rt ctx db actor (Request.schedule call) after v e (p, w, t) = (
  subst (All IsPolicy) (sym (schedule_handler-policies rt ctx db actor call after e)) p,
  schedule_handler-IsWindow rt ctx db actor call after v e w,
  subst (All IsTarget) (sym (schedule_handler-others rt ctx db actor call after e).1) t,
)
handle-IsBounded rt ctx db actor (Request.target call) after v e (p, w, t) =
    let (settings, users) = target_handler-SameSettings rt ctx db actor call after e in
    (
      subst (All IsPolicy) (sym settings.0) p,
      subst (All IsWindow) (sym settings.2) w,
      target_handler-IsTarget rt ctx db actor call after v e t,
    )
handle-IsBounded rt ctx db actor (Request.user call) after v e (p, w, t) =
    let (settings, targets) = user_handler-SameSettings rt ctx db actor call after e in
    (
      subst (All IsPolicy) (sym settings.0) p,
      subst (All IsWindow) (sym settings.2) w,
      subst (All IsTarget) (sym targets) t,
    )

answer-IsBounded :
    (rt : Runtime) (ctx : Context) (db : Db) (actor : Actor) (request : Request) (after : Db)
    → answer rt ctx db actor request ≡ ok after
    → IsBounded db
    → IsBounded after
unfolding answer
answer-IsBounded rt ctx db actor request after e h =
    elim (Bool-cases (can_activate (required_roles request) (some actor))) [
      | inr no' ↦ absurd (ground arith)
      | inl may ↦ elim (Bool-cases (is_valid_body rt request)) [
        | inr no' ↦ absurd (ground arith)
        | inl valid ↦ handle-IsBounded rt ctx db actor request after valid (ground arith) h
      ]
    ]

serve-IsBounded :
    (rt : Runtime) (ctx : Context) (db : Db) (sub : Key) (request : Request)
    → IsBounded db
    → IsBounded (serve rt ctx db sub request)
unfolding serve
serve-IsBounded rt ctx db sub request h = elim (Result-cases (validate db sub)) [
  | inr (failure, gone) ↦
      let same : audit_failure ctx (is_login_url ctx) none failure db
          ≡ serve rt ctx db sub request =
        ground arith in
      subst IsBounded same (
        SameRest-IsBounded db (audit_failure ctx (is_login_url ctx) none failure db)
          (audit_failure-SameRest ctx (is_login_url ctx) none failure db) h)
  | inl (actor, known) ↦ elim (Result-cases (answer rt ctx db actor request)) [
    | inr (failure, refused) ↦
        let same : audit_failure ctx (is_login_url ctx) (some actor) failure db
            ≡ serve rt ctx db sub request =
          ground arith in
        subst IsBounded same (
          SameRest-IsBounded db (audit_failure ctx (is_login_url ctx) (some actor) failure db)
            (audit_failure-SameRest ctx (is_login_url ctx) (some actor) failure db) h)
    | inl (after, done) ↦
        let same : after ≡ serve rt ctx db sub request = ground arith in
        subst IsBounded same (answer-IsBounded rt ctx db actor request after done h)
  ]
]

get_required-bounds :
    (ctx : Context) (db : Db) (env : TargetEnv)
    → All IsPolicy db.approval_policies
    → (1 ≤ get_required ctx db env) × (get_required ctx db env ≤ 5)
unfolding get_required find_policy
get_required-bounds ctx db env h =
    elim (Option-cases (find (λ row. same_env row.env env) db.approval_policies)) [
      | inl none' ↦ ground arith
      | inr (row, found) ↦
          let range =
            All-In IsPolicy db.approval_policies row h
              ((find-In (λ row. same_env row.env env) db.approval_policies row found).0) in
          ground arith
    ]

serve_all-stays :
    (rt : Runtime) (requests : List (Context × Key × Request)) (db : Db)
    → IsBounded db
    → IsBounded (serve_all rt requests db)
unfolding serve_all
serve_all-stays rt [] db h = h
serve_all-stays rt ((ctx, sub, request) ∷ requests) db h =
    serve_all-stays rt requests (serve rt ctx db sub request)
      (serve-IsBounded rt ctx db sub request h)

-- Whatever requests are served, the stored settings stay in their ranges: 1 to 5 required approvals,
-- windows on a weekday that end later the same day, at midnight at the latest, and ports of 16 bits.
-- So every environment always requires 1 to 5 approvals.
pub serve_all-IsBounded :
    (rt : Runtime) (requests : List (Context × Key × Request)) (db : Db) (ctx : Context)
    (env : TargetEnv)
    → IsBounded db
    → IsBounded (serve_all rt requests db)
      × (1 ≤ get_required ctx (serve_all rt requests db) env)
      × (get_required ctx (serve_all rt requests db) env ≤ 5)
serve_all-IsBounded rt requests db ctx env h =
    let stays = serve_all-stays rt requests db h in
    let range = get_required-bounds ctx (serve_all rt requests db) env stays.0 in
    (stays, range.0, range.1)
