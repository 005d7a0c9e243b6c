-- ===== src/Http/Confined.antt =====
-- Who may change what (Http).
use dbflow.Sql.Regex.{codes}
use dbflow.Common.{
  includes_text, Bool, ◌≡◌, refl, ap, subst, sym, ◌++◌, ◌⊎◌, inl, inr, true, false, [], ◌∷◌, map,
  none, some, Bool-cases, arith,
}
use dbflow.Store.{Key, Role, same_role, Actor, Db, Context, Failure, ok, err, Result-cases}
use dbflow.Auth.{validate, can_activate, is_login_url, audit_failure}
use dbflow.Auth.Login.{attempt_entry}
use dbflow.Audit.{record_log, build_data_of}
use dbflow.Http.{Request, required_roles, handle, answer, serve}
use dbflow.Http.Controllers.{Runtime, UserCall, user_handler}
use dbflow.Http.Frames.{
  SameSettings, SameRest, standing, change_request_handler-SameRest, delegation_handler-SameRest,
  target_handler-SameSettings, user_handler-SameSettings, update_me-standing,
  audit_failure-SameRest, approval_policy_handler-others, sql_review_handler-others,
  schedule_handler-others,
}

same_role-eq : (a b : Role) → same_role a b ≡ true → b ≡ a
same_role-eq Role.developer Role.developer e = refl
same_role-eq Role.developer Role.reviewer e = absurd (cc)
same_role-eq Role.developer Role.approver e = absurd (cc)
same_role-eq Role.developer Role.admin e = absurd (cc)
same_role-eq Role.reviewer Role.developer e = absurd (cc)
same_role-eq Role.reviewer Role.reviewer e = refl
same_role-eq Role.reviewer Role.approver e = absurd (cc)
same_role-eq Role.reviewer Role.admin e = absurd (cc)
same_role-eq Role.approver Role.developer e = absurd (cc)
same_role-eq Role.approver Role.reviewer e = absurd (cc)
same_role-eq Role.approver Role.approver e = refl
same_role-eq Role.approver Role.admin e = absurd (cc)
same_role-eq Role.admin Role.developer e = absurd (cc)
same_role-eq Role.admin Role.reviewer e = absurd (cc)
same_role-eq Role.admin Role.approver e = absurd (cc)
same_role-eq Role.admin Role.admin e = refl

can_activate-one :
    (role : Role) (actor : Actor) → can_activate (role ∷ []) (some actor) ≡ true → actor.role ≡ role
unfolding can_activate
can_activate-one role actor e = same_role-eq role actor.role (ground arith)

-- What a user changes lies within his role: settings and the standing of accounts (key, role, email and
-- password) are an administrator's, target databases an approver's.
abbrev pub IsConfined : Actor → Db → Db → Type 0
IsConfined actor db after =
    (SameSettings db after ⊎ (actor.role ≡ Role.admin))
    × ((map standing after.users ≡ map standing db.users) ⊎ (actor.role ≡ Role.admin))
    × ((after.targets ≡ db.targets) ⊎ (actor.role ≡ Role.approver))

SameRest-IsConfined :
    (actor : Actor) (db after : Db) → SameRest db after → IsConfined actor db after
SameRest-IsConfined actor db after (settings, targets, users) =
    (inl settings, inl (ap (map standing) users), inl targets)

handle-IsConfined :
    (rt : Runtime) (ctx : Context) (db : Db) (actor : Actor) (request : Request) (after : Db)
    → can_activate (required_roles request) (some actor) ≡ true
    → handle rt ctx db actor request ≡ ok after
    → IsConfined actor db after
unfolding handle required_roles user_handler
handle-IsConfined rt ctx db actor (Request.change_request call) after role e =
    SameRest-IsConfined actor db after (change_request_handler-SameRest ctx db actor call after e)
handle-IsConfined rt ctx db actor (Request.delegation call) after role e =
    SameRest-IsConfined actor db after (delegation_handler-SameRest rt ctx db actor call after e)
handle-IsConfined rt ctx db actor (Request.approval_policy call) after role e =
    let admin' = can_activate-one Role.admin actor role in
    (inr admin', inr admin', inl (approval_policy_handler-others ctx db actor call after e).1)
handle-IsConfined rt ctx db actor (Request.sql_review call) after role e =
    let admin' = can_activate-one Role.admin actor role in
    (inr admin', inr admin', inl (sql_review_handler-others ctx db actor call after e).1)
handle-IsConfined rt ctx db actor (Request.schedule call) after role e =
    let admin' = can_activate-one Role.admin actor role in
    (inr admin', inr admin', inl (schedule_handler-others rt ctx db actor call after e).1)
handle-IsConfined rt ctx db actor (Request.target call) after role e =
    let (settings, users) = target_handler-SameSettings rt ctx db actor call after e in
    (inl settings, inl (ap (map standing) users), inr (can_activate-one Role.approver actor role))
handle-IsConfined rt ctx db actor (Request.user (UserCall.create dto)) after role e =
    let admin' = can_activate-one Role.admin actor role in
    (
      inr admin',
      inr admin',
      inl (user_handler-SameSettings rt ctx db actor (UserCall.create dto) after e).1,
    )
handle-IsConfined rt ctx db actor (Request.user (UserCall.update_me dto)) after role e =
    let (settings, targets) =
      user_handler-SameSettings rt ctx db actor (UserCall.update_me dto) after e in
    (inl settings, inl (update_me-standing ctx db actor.user_id dto actor after e), inl targets)

answer-IsConfined :
    (rt : Runtime) (ctx : Context) (db : Db) (actor : Actor) (request : Request) (after : Db)
    → answer rt ctx db actor request ≡ ok after
    → IsConfined actor db after
unfolding answer
answer-IsConfined rt ctx db actor request after e =
    elim (Bool-cases (can_activate (required_roles request) (some actor))) [
      | inr no' ↦ absurd (ground arith)
      | inl yes' ↦ handle-IsConfined rt ctx db actor request after yes' (ground arith)
    ]

-- Nothing has changed, but for one entry of a failed login if the URL includes /auth/login and the write
-- succeeds.
abbrev pub IsUnchanged : Context → Db → Db → Type 0
IsUnchanged ctx db after =
    (((includes_text (codes "/auth/login") ctx.url ≡ false) ⊎ (ctx.audit_up ≡ false))
      × (after ≡ db))
    ⊎ ((includes_text (codes "/auth/login") ctx.url ≡ true)
        × (ctx.audit_up ≡ true)
        × (after ≡ record db { audit_logs = db.audit_logs ++ (attempt_entry none ∷ []) }))

refused_login :
    (ctx : Context) (db : Db) (is_login : Bool) (failure : Failure) (sub : Key)
    → validate db sub ≡ err failure
    → ((((is_login ≡ false) ⊎ (ctx.audit_up ≡ false))
          × (audit_failure ctx is_login none failure db ≡ db))
        ⊎ ((is_login ≡ true)
            × (ctx.audit_up ≡ true)
            × (audit_failure ctx is_login none failure db
                ≡ record db { audit_logs = db.audit_logs ++ (attempt_entry none ∷ []) })))
unfolding validate audit_failure record_log build_data_of
refused_login ctx db is_login failure sub e = ground arith

no_account :
    (ctx : Context) (db : Db) (sub : Key) (failure : Failure)
    → validate db sub ≡ err failure
    → IsUnchanged ctx db (audit_failure ctx (is_login_url ctx) none failure db)
unfolding is_login_url
no_account ctx db sub failure e =
    refused_login ctx db (includes_text (codes "/auth/login") ctx.url) failure sub e

-- A request of the controllers of Http without an account changes nothing, but for one audit entry of a
-- failed login where its URL includes /auth/login. With an account it leaves the settings and the standing of
-- accounts as they were unless the account is an administrator, and the target databases unless it is an
-- approver, whether the request succeeds or fails.
pub serve-IsConfined :
    (rt : Runtime) (ctx : Context) (db : Db) (sub : Key) (request : Request)
    → ((failure : Failure) × (validate db sub ≡ err failure)
        × IsUnchanged ctx db (serve rt ctx db sub request))
      ⊎ ((actor : Actor) × (validate db sub ≡ ok actor)
          × IsConfined actor db (serve rt ctx db sub request))
unfolding serve
serve-IsConfined rt ctx db sub request = elim (Result-cases (validate db sub)) [
  | inr (failure, gone) ↦ inl (
    failure,
    gone,
    subst (IsUnchanged ctx db) (sym (step' failure gone)) (no_account ctx db sub failure gone),
  )
  | inl (actor, known) ↦ elim (Result-cases (answer rt ctx db actor request)) [
    | inr (failure, refused) ↦
        let same : audit_failure ctx (is_login_url ctx) (some actor) failure db
            ≡ serve rt ctx db sub request =
          ground arith in
        inr (
          actor,
          known,
          subst (IsConfined actor db) same (
              SameRest-IsConfined actor db
                (audit_failure ctx (is_login_url ctx) (some actor) failure db)
                (audit_failure-SameRest ctx (is_login_url ctx) (some actor) failure db)),
        )
    | inl (after, done) ↦
        let same : after ≡ serve rt ctx db sub request = ground arith in
        inr (
          actor,
          known,
          subst (IsConfined actor db) same (answer-IsConfined rt ctx db actor request after done),
        )
  ]
]
  where
    step' :
        (failure : Failure)
        → validate db sub ≡ err failure
        → serve rt ctx db sub request ≡ audit_failure ctx (is_login_url ctx) none failure db
    step' failure gone = ground arith
