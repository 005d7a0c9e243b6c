-- ===== src/Http/Ranges.antt =====
-- The ranges of the stored settings, and the handlers that write them (Http).
use dbflow.Common.{
  ℕ, ◌≤◌, ◌<◌, ◌≡◌, sym, subst, inl, inr, true, not, List, [], ◌∷◌, ◌++◌, Option, ◌==◌, filter,
  update_where, All, All-append, All-filter, All-update_where, Option-cases, arith,
}
use dbflow.Store.{
  Key, TargetEnv, same_env, TargetDatabase, ApplyWindow, Actor, Db, Context, Failure, ok, err,
  Result, Result-cases,
}
use dbflow.Store
use dbflow.Audit.{record_log}
use dbflow.ApprovalPolicy.{upsert_policy}
use dbflow.ApplySchedule
use dbflow.TargetDatabases.{
  CreateTargetDto, UpdateTargetDto, new_target, change_target, create_target, update_target_db,
  remove_target, encrypt_given, get_target_or_throw,
}
use dbflow.Http.Validation.{
  is_valid_policy, is_valid_window, is_valid_target, is_valid_target_update,
}
use dbflow.Http.Controllers.{
  Runtime, ScheduleCall, schedule_body, schedule_handler, TargetCall, target_body, target_handler,
}
use dbflow.Http.Frames.{SameRest}

abbrev pub IsPolicy : Store.ApprovalPolicy → Type 0
IsPolicy row = (1 ≤ row.required_approvals) × (row.required_approvals ≤ 5)

-- A weekday, and a span of minutes within one day.
abbrev pub IsWindow : ApplyWindow → Type 0
IsWindow w = (w.day_of_week < 7) × (w.start_minute < w.end_minute) × (w.end_minute ≤ 1440)

abbrev pub IsTarget : TargetDatabase → Type 0
IsTarget t = (1 ≤ t.port) × (t.port ≤ 65535)

-- The stored settings lie in their ranges.
abbrev pub IsBounded : Db → Type 0
IsBounded db = All IsPolicy db.approval_policies × All IsWindow db.windows × All IsTarget db.targets

pub upsert_policy-IsPolicy :
    (env : TargetEnv) (n : ℕ) (rows : List Store.ApprovalPolicy)
    → is_valid_policy n ≡ true
    → All IsPolicy rows
    → All IsPolicy (upsert_policy env n rows)
unfolding upsert_policy is_valid_policy
upsert_policy-IsPolicy env n [] v h = ground arith
upsert_policy-IsPolicy env n (row ∷ rows) v h =
    ground (arith, upsert_policy-IsPolicy env n rows v h.1)

pub SameRest-IsBounded : (db after : Db) → SameRest db after → IsBounded db → IsBounded after
SameRest-IsBounded db after (settings, targets, users) (p, w, t) = (
  subst (All IsPolicy) (sym settings.0) p,
  subst (All IsWindow) (sym settings.2) w,
  subst (All IsTarget) (sym targets) t,
)

valid_port :
    (dto : CreateTargetDto) → is_valid_target dto ≡ true → (1 ≤ dto.port) × (dto.port ≤ 65535)
unfolding is_valid_target
valid_port dto v = (ground arith, ground arith)

valid_port_update :
    (dto : UpdateTargetDto) (stored : Option (List ℕ)) (t : TargetDatabase)
    → is_valid_target_update dto ≡ true
    → IsTarget t
    → IsTarget (change_target dto stored t)
unfolding is_valid_target_update
valid_port_update dto stored t v p = ground arith

pub schedule_handler-IsWindow :
    (rt : Runtime) (ctx : Context) (db : Db) (actor : Actor) (call : ScheduleCall) (after : Db)
    → schedule_body call ≡ true
    → schedule_handler rt ctx db actor call ≡ ok after
    → All IsWindow db.windows
    → All IsWindow after.windows
unfolding schedule_handler ApplySchedule.create_window ApplySchedule.delete_window
    ApplySchedule.create_freeze ApplySchedule.delete_freeze record_log schedule_body is_valid_window
schedule_handler-IsWindow rt ctx db actor (ScheduleCall.create_window dto) after v e h =
    let row : ApplyWindow = record {
      id = ctx.fresh 0;
      env = dto.env;
      day_of_week = dto.day_of_week;
      start_minute = dto.start_minute;
      end_minute = dto.end_minute;
    } in
    let rows : db.windows ++ (row ∷ []) ≡ after.windows = ground arith in
    subst (All IsWindow) rows
      (All-append IsWindow db.windows row h (ground arith, ground arith, ground arith))
schedule_handler-IsWindow rt ctx db actor (ScheduleCall.delete_window id) after v e h =
    let rows : filter (λ w. not (w.id == id)) db.windows ≡ after.windows = ground arith in
    subst (All IsWindow) rows (All-filter IsWindow (λ w. not (w.id == id)) db.windows h)
schedule_handler-IsWindow rt ctx db actor (ScheduleCall.create_freeze dto) after v e h =
    let rows : db.windows ≡ after.windows = ground arith in subst (All IsWindow) rows h
schedule_handler-IsWindow rt ctx db actor (ScheduleCall.delete_freeze id) after v e h =
    let rows : db.windows ≡ after.windows = ground arith in subst (All IsWindow) rows h

pub schedule_handler-policies :
    (rt : Runtime) (ctx : Context) (db : Db) (actor : Actor) (call : ScheduleCall) (after : Db)
    → schedule_handler rt ctx db actor call ≡ ok after
    → after.approval_policies ≡ db.approval_policies
unfolding schedule_handler ApplySchedule.create_window ApplySchedule.delete_window
    ApplySchedule.create_freeze ApplySchedule.delete_freeze record_log
schedule_handler-policies rt ctx db actor (ScheduleCall.create_window dto) after e = ground arith
schedule_handler-policies rt ctx db actor (ScheduleCall.delete_window id) after e = ground arith
schedule_handler-policies rt ctx db actor (ScheduleCall.create_freeze dto) after e = ground arith
schedule_handler-policies rt ctx db actor (ScheduleCall.delete_freeze id) after e = ground arith

pub target_handler-IsTarget :
    (rt : Runtime) (ctx : Context) (db : Db) (actor : Actor) (call : TargetCall) (after : Db)
    → target_body call ≡ true
    → target_handler rt ctx db actor call ≡ ok after
    → All IsTarget db.targets
    → All IsTarget after.targets
unfolding target_handler create_target update_target_db remove_target get_target_or_throw record_log
    target_body
target_handler-IsTarget rt ctx db actor (TargetCall.create dto) after v e h =
    elim (Option-cases (rt.encrypt dto.password)) [
      | inl none' ↦ absurd (ground arith)
      | inr (stored, done) ↦
          let rows : db.targets ++ (new_target ctx dto stored ∷ []) ≡ after.targets =
            ground arith in
          subst (All IsTarget) rows
            (All-append IsTarget db.targets (new_target ctx dto stored) h (valid_port dto v))
    ]
target_handler-IsTarget rt ctx db actor (TargetCall.update id dto) after v e h =
    elim (Result-cases (get_target_or_throw db id)) [
      | inr (f, missing) ↦ absurd (ground arith)
      | inl (t, found) ↦ elim (Result-cases (encrypt_given rt.encrypt dto.password)) [
        | inr (f, failed) ↦ absurd (ground arith)
        | inl (stored, done) ↦
            let rows : update_where (λ t. t.id == id) (change_target dto stored) db.targets
                ≡ after.targets =
              ground arith in
            subst (All IsTarget) rows (
              All-update_where IsTarget (λ t. t.id == id) (change_target dto stored) db.targets
                (λ t p. valid_port_update dto stored t v p) h)
      ]
    ]
target_handler-IsTarget rt ctx db actor (TargetCall.remove id) after v e h =
    let rows : filter (λ t. not (t.id == id)) db.targets ≡ after.targets = ground arith in
    subst (All IsTarget) rows (All-filter IsTarget (λ t. not (t.id == id)) db.targets h)
