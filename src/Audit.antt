-- ===== src/Audit.antt =====
-- Audit entries: apps/api/src/audit/audit.service.ts. An entry keeps who, what, on what and with
-- which outcome; its summary text, metadata and request headers are left out.
pub mod Reading
pub mod Csv
pub mod CsvTexts
pub mod CsvReader
use dbflow.Common.{Option, none, some, [], ◌∷◌, ◌++◌, if◌then◌else◌}
use dbflow.Store.{
  Key, Actor, AuditAction, AuditTargetType, AuditOutcome, AuditTarget, AuditLog, Db, Context,
}

abbrev user_of : Option Actor → Option Key
user_of none = none
user_of (some actor) = some actor.user_id

-- `buildData`, with the actor if the request has one.
unfoldable pub build_data_of :
    Option Actor → AuditAction → AuditTargetType → AuditTarget → AuditOutcome → AuditLog
build_data_of actor action target_type target_id outcome = record {
  actor_id = user_of actor;
  action = action;
  target_type = target_type;
  target_id = target_id;
  outcome = outcome;
}

unfoldable pub build_data :
    Actor → AuditAction → AuditTargetType → AuditTarget → AuditOutcome → AuditLog
unfolding build_data_of
build_data actor = build_data_of (some actor)

-- `tx.auditLog.create`, inside a transaction.
abbrev pub append_log : AuditLog → Db → Db
append_log entry db = record db { audit_logs = db.audit_logs ++ (entry ∷ []) }

-- `record`: best effort, a failed write is swallowed.
unfoldable pub record_log : Context → AuditLog → Db → Db
record_log ctx entry db = if ctx.audit_up then append_log entry db else db
