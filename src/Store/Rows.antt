-- ===== src/Store/Rows.antt =====
-- One record for each model of apps/api/prisma/schema.prisma that the services keep state in. A
-- column that no modelled service reads or that only names the row itself is left out.
use dbflow.Common.{ℕ, String, List, Option, Bool}
use dbflow.Store.Enums.{
  Role, TargetEnv, SqlType, Status, DbType, ExecutionStatus, ExecutionKind, BackupScope,
  BackupStatus, Decision, SqlReviewLevel, AuditOutcome, AuditAction, AuditTargetType,
}

abbrev pub Key : Type 0
Key = ℕ

-- The code points of a text.
abbrev pub Text : Type 0
Text = List ℕ

pub record User : Type 0 where
  pub id : Key
  pub name : String
  pub department : String
  pub role : Role
  pub email : String
  pub password_hash : String
  pub telegram_chat_id : Option String

pub record ChangeRequest : Type 0 where
  pub id : Key
  pub title : String
  pub description : String
  pub target_env : TargetEnv
  pub status : Status
  pub author_id : Key
  pub reviewer_id : Option Key
  pub created_at : ℕ
  pub updated_at : ℕ

pub record Approver : Type 0 where
  pub id : Key
  pub change_request_id : Key
  pub user_id : Key
  pub order : ℕ
  pub decision : Option Decision
  pub comment : Option String
  pub decided_at : Option ℕ
  pub decided_by_id : Option Key

pub record File : Type 0 where
  pub change_request_id : Key
  pub filename : String
  pub sql_type : SqlType
  pub content : Text
  pub order : ℕ

pub record History : Type 0 where
  pub change_request_id : Key
  pub from_status : Status
  pub to_status : Status
  pub actor_id : Key
  pub comment : Option String

pub record TargetDatabase : Type 0 where
  pub id : Key
  pub env : TargetEnv
  pub db_type : DbType
  pub name : String
  pub host : String
  pub port : ℕ
  pub username : String
  pub password_enc : Text
  pub database : Text

pub record Execution : Type 0 where
  pub id : Key
  pub change_request_id : Key
  pub target_database_id : Key
  pub kind : ExecutionKind
  pub status : ExecutionStatus
  pub started_at : Option ℕ
  pub finished_at : Option ℕ
  pub triggered_by_id : Key
  pub backup_id : Option Key

-- What a step stands for: a file, the table of a rollback, or one of the two synthetic steps.
pub data StepName : Type 0 where
  backup connection : StepName
  file : String → StepName
  table : Text → StepName

pub record ExecutionStep : Type 0 where
  pub execution_id : Key
  pub filename : StepName
  pub order : ℕ
  pub status : ExecutionStatus
  pub rows_affected : Option ℕ

-- One table of a backup's payload. The columns and rows are there when the data is.
pub record TableSnapshot : Type 0 where
  pub name : Text
  pub existed_before : Bool
  pub data_included : Bool
  pub row_count : ℕ
  pub columns : List Text
  pub rows : List (List Text)

pub record Backup : Type 0 where
  pub id : Key
  pub change_request_id : Key
  pub target_database_id : Key
  pub scope : BackupScope
  pub status : BackupStatus
  pub payload : List TableSnapshot

pub record ApprovalPolicy : Type 0 where
  pub env : TargetEnv
  pub required_approvals : ℕ

pub record SqlReviewRule : Type 0 where
  pub env : TargetEnv
  pub rule_key : String
  pub level : SqlReviewLevel

pub record ApplyWindow : Type 0 where
  pub id : Key
  pub env : TargetEnv
  pub day_of_week : ℕ
  pub start_minute : ℕ
  pub end_minute : ℕ

pub record FreezePeriod : Type 0 where
  pub id : Key
  pub env : TargetEnv
  pub starts_at : ℕ
  pub ends_at : ℕ
  pub reason : String
  pub created_by_id : Key

pub record Delegation : Type 0 where
  pub id : Key
  pub delegator_id : Key
  pub delegate_id : Key
  pub starts_at : ℕ
  pub ends_at : ℕ
  pub reason : Option String
  pub created_by_id : Key

-- The text in an audit entry's target column, by what it names, or null.
pub data AuditTarget : Type 0 where
  row : Key → AuditTarget
  policy : TargetEnv → AuditTarget
  rule : TargetEnv → String → AuditTarget
  no_row : AuditTarget

pub record AuditLog : Type 0 where
  pub actor_id : Option Key
  pub action : AuditAction
  pub target_type : AuditTargetType
  pub target_id : AuditTarget
  pub outcome : AuditOutcome

-- The tables, and the comparison of emails by the collation of their column (utf8mb4_unicode_ci, which
-- ignores case).
pub record Db : Type 0 where
  pub users : List User
  pub change_requests : List ChangeRequest
  pub approvers : List Approver
  pub files : List File
  pub history : List History
  pub targets : List TargetDatabase
  pub executions : List Execution
  pub steps : List ExecutionStep
  pub backups : List Backup
  pub approval_policies : List ApprovalPolicy
  pub sql_rules : List SqlReviewRule
  pub windows : List ApplyWindow
  pub freezes : List FreezePeriod
  pub delegations : List Delegation
  pub audit_logs : List AuditLog
  pub same_email : String → String → Bool

-- What a request runs in: the time, the key that the database gives to the n-th row that the
-- request creates, its URL, whether a best-effort audit write goes through, and whether the two policy reads
-- that the services guard by a `catch` go through. No other failure of the database is modelled.
pub record Context : Type 0 where
  pub now : ℕ
  pub fresh : ℕ → Key
  pub audit_up : Bool
  pub policy_up : Bool
  pub url : Text

-- The authenticated user of a request (apps/api/src/auth/current-user.decorator.ts).
pub record Actor : Type 0 where
  pub user_id : Key
  pub role : Role
