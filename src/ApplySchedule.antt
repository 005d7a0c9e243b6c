-- ===== src/ApplySchedule.antt =====
-- Apply windows and freezes: apps/api/src/apply-schedule/apply-schedule.service.ts. The weekday, the
-- hour and the minute of an instant in the server's time zone are a parameter, and so is the parsing
-- of a local time.
pub mod Laws
pub mod NextWindow
use dbflow.Common.{
  ℕ, zero, suc, ◌+◌, ◌*◌, ◌%◌, String, ◌==◌, leb, ltb, Bool, true, false, not, ◌&&◌, ◌||◌, List, [],
  ◌∷◌, ◌++◌, map, Option, none, some, if◌then◌else◌, find, any, filter, head?, sort_asc, sort_desc,
}
use dbflow.Store.{
  Key, TargetEnv, same_env, ApplyWindow, FreezePeriod, Actor, Db, Context, AuditAction,
  AuditTargetType, AuditTarget, AuditOutcome, bad_request, not_found, conflict, Message, Result, ok,
  err, ◌>>=◌, ◌>>◌, guard, or_throw,
}
use dbflow.Audit.{build_data, record_log}
use dbflow.Delegation.{date_lt, date_or_zero}

-- `getDay`, `getHours` and `getMinutes` of an instant.
pub record Zone : Type 0 where
  pub get_day : ℕ → ℕ
  pub get_hours : ℕ → ℕ
  pub get_minutes : ℕ → ℕ

pub data ScheduleStatus : Type 0 where
  allowed : ScheduleStatus
  frozen : FreezePeriod → ScheduleStatus
  out_of_window : Option ApplyWindow → ScheduleStatus

abbrev pub is_frozen : TargetEnv → ℕ → FreezePeriod → Bool
is_frozen env now f = same_env f.env env && (leb f.starts_at now && ltb now f.ends_at)

-- The freeze in force, the one that ends last.
unfoldable pub active_freeze : TargetEnv → ℕ → Db → Option FreezePeriod
active_freeze env now db =
    head? (sort_desc (λ f. f.ends_at) (filter (is_frozen env now) db.freezes))

abbrev pub windows_of : TargetEnv → Db → List ApplyWindow
windows_of env db = filter (λ w. same_env w.env env) db.windows

abbrev pub is_open_at : ℕ → ℕ → ApplyWindow → Bool
is_open_at day minute w =
    (w.day_of_week == day) && (leb w.start_minute minute && ltb minute w.end_minute)

-- The windows of the day `offset` days on; today only those that start later.
abbrev pub is_candidate : ℕ → ℕ → ℕ → ApplyWindow → Bool
is_candidate day minute offset w =
    (w.day_of_week == (day + offset) % 7) && (ltb 0 offset || ltb minute w.start_minute)

unfoldable pub first_window : ℕ → ℕ → ℕ → List ApplyWindow → Option ApplyWindow
first_window day minute offset windows =
    head? (sort_asc (λ w. w.start_minute) (filter (is_candidate day minute offset) windows))

-- The loop over the offsets, `rounds` of them left.
unfoldable pub scan_days : ℕ → ℕ → ℕ → ℕ → List ApplyWindow → Option ApplyWindow
scan_days zero offset day minute windows = none
scan_days (suc rounds) offset day minute windows = elim (first_window day minute offset windows) [
  | some w ↦ some w
  | none ↦ scan_days rounds (suc offset) day minute windows
]

-- `findNextWindow`: offsets 0 to 7.
unfoldable pub find_next_window : List ApplyWindow → ℕ → ℕ → Option ApplyWindow
find_next_window windows day minute = scan_days 8 0 day minute windows

unfoldable pub check_windows : List ApplyWindow → ℕ → ℕ → ScheduleStatus
check_windows [] day minute = ScheduleStatus.allowed
check_windows (w ∷ ws) day minute =
    if any (is_open_at day minute) (w ∷ ws)
    then ScheduleStatus.allowed
    else ScheduleStatus.out_of_window (find_next_window (w ∷ ws) day minute)

unfoldable pub check_freeze : Option FreezePeriod → ScheduleStatus → ScheduleStatus
check_freeze none status = status
check_freeze (some f) status = ScheduleStatus.frozen f

-- `checkApplyAllowed`.
unfoldable pub check_apply_allowed : Zone → Db → TargetEnv → ℕ → ScheduleStatus
unfolding check_windows check_freeze
check_apply_allowed zone db env now = check_freeze (active_freeze env now db) (
    check_windows (windows_of env db) (zone.get_day now)
      (zone.get_hours now * 60 + zone.get_minutes now))

unfoldable pub schedule_result : ScheduleStatus → Result (Unit {0})
schedule_result ScheduleStatus.allowed = ok tt
schedule_result (ScheduleStatus.frozen f) = err (conflict Message.frozen)
schedule_result (ScheduleStatus.out_of_window (some w)) = err (conflict Message.out_of_window_next)
schedule_result (ScheduleStatus.out_of_window none) = err (conflict Message.out_of_window)

-- `assertApplyAllowed`.
unfoldable pub assert_apply_allowed : Zone → Db → TargetEnv → ℕ → Result (Unit {0})
unfolding schedule_result
assert_apply_allowed zone db env now = schedule_result (check_apply_allowed zone db env now)

-- `list`: all windows by environment, day and start, and the freezes that are not over.
env_order : TargetEnv → ℕ
env_order TargetEnv.dev = 0
env_order TargetEnv.staging = 1
env_order TargetEnv.prod = 2

unfoldable pub list_schedule : Context → Db → List ApplyWindow × List FreezePeriod
unfolding env_order
list_schedule ctx db = (
  sort_asc (λ w. env_order w.env)
      (sort_asc (λ w. w.day_of_week) (sort_asc (λ w. w.start_minute) db.windows)),
  sort_asc (λ f. f.starts_at) (filter (λ f. ltb ctx.now f.ends_at) db.freezes),
)

abbrev schedule_log : Context → Actor → AuditAction → Key → Db → Db
schedule_log ctx actor action id = record_log ctx (
    build_data actor action AuditTargetType.apply_schedule (AuditTarget.row id)
      AuditOutcome.success)

pub record WindowDto : Type 0 where
  pub env : TargetEnv
  pub day_of_week : ℕ
  pub start_minute : ℕ
  pub end_minute : ℕ

-- `createWindow`.
unfoldable pub create_window : Context → Db → WindowDto → Actor → Result Db
create_window ctx db dto actor = do
  guard (ltb dto.start_minute dto.end_minute) (bad_request Message.window_start_after_end)
  let row : ApplyWindow = record {
    id = ctx.fresh 0;
    env = dto.env;
    day_of_week = dto.day_of_week;
    start_minute = dto.start_minute;
    end_minute = dto.end_minute;
  }
  ok (
      schedule_log ctx actor AuditAction.apply_window_updated (ctx.fresh 0)
        (record db { windows = db.windows ++ (row ∷ []) }))

-- `deleteWindow`.
unfoldable pub delete_window : Context → Db → Key → Actor → Result Db
delete_window ctx db id actor = do
  row ← or_throw (find (λ w. w.id == id) db.windows) (not_found Message.window_not_found)
  ok (
      schedule_log ctx actor AuditAction.apply_window_updated id
        (record db { windows = filter (λ w. not (w.id == id)) db.windows }))

pub record FreezeDto : Type 0 where
  pub env : TargetEnv
  pub starts_at : String
  pub ends_at : String
  pub reason : String

-- `createFreeze`.
unfoldable pub create_freeze : (String → Option ℕ) → Context → Db → FreezeDto → Actor → Result Db
create_freeze parse_date ctx db dto actor = do
  let starts = parse_date dto.starts_at
  let ends = parse_date dto.ends_at
  guard (date_lt starts ends) (bad_request Message.freeze_start_after_end)
  let row : FreezePeriod = record {
    id = ctx.fresh 0;
    env = dto.env;
    starts_at = date_or_zero starts;
    ends_at = date_or_zero ends;
    reason = dto.reason;
    created_by_id = actor.user_id;
  }
  ok (
      schedule_log ctx actor AuditAction.freeze_updated (ctx.fresh 0)
        (record db { freezes = db.freezes ++ (row ∷ []) }))

-- `deleteFreeze`.
unfoldable pub delete_freeze : Context → Db → Key → Actor → Result Db
delete_freeze ctx db id actor = do
  row ← or_throw (find (λ f. f.id == id) db.freezes) (not_found Message.freeze_not_found)
  ok (
      schedule_log ctx actor AuditAction.freeze_updated id
        (record db { freezes = filter (λ f. not (f.id == id)) db.freezes }))
