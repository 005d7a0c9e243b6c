-- ===== src/Store/Enums.antt =====
-- The enums of apps/api/prisma/schema.prisma, and `===` on those that the services compare.
use mathlib.Core.Bool.{Bool, true, false}
use mathlib.Core.Option.{Option, some}

pub data Role : Type 0 where
  developer reviewer approver admin : Role

pub data TargetEnv : Type 0 where
  dev staging prod : TargetEnv

pub data SqlType : Type 0 where
  ddl dml : SqlType

pub data Status : Type 0 where
  draft submitted review_approved review_rejected final_approved final_rejected applied : Status

pub data DbType : Type 0 where
  mysql postgres mariadb oracle : DbType

pub data ExecutionStatus : Type 0 where
  pending running success failed : ExecutionStatus

pub data ExecutionKind : Type 0 where
  apply rollback : ExecutionKind

pub data BackupScope : Type 0 where
  schema_and_data schema_only : BackupScope

pub data BackupStatus : Type 0 where
  success partial failed : BackupStatus

pub data Decision : Type 0 where
  approve reject : Decision

pub data SqlReviewLevel : Type 0 where
  disabled info warn block : SqlReviewLevel

pub data AuditOutcome : Type 0 where
  success failure : AuditOutcome

pub data AuditAction : Type 0 where
  login_success login_failure access_denied user_created user_profile_updated : AuditAction
  cr_created cr_submitted cr_reviewed cr_approved cr_assignees_changed : AuditAction
  cr_applied cr_rolled_back target_db_created target_db_updated : AuditAction
  target_db_deleted sql_policy_updated approval_policy_updated : AuditAction
  apply_window_updated freeze_updated delegation_updated : AuditAction

pub data AuditTargetType : Type 0 where
  change_request user target_database execution auth sql_review_policy : AuditTargetType
  approval_policy apply_schedule delegation : AuditTargetType

abbrev pub same_role : Role → Role → Bool
same_role Role.developer Role.developer = true
same_role Role.reviewer Role.reviewer = true
same_role Role.approver Role.approver = true
same_role Role.admin Role.admin = true
same_role _ _ = false

abbrev pub same_env : TargetEnv → TargetEnv → Bool
same_env TargetEnv.dev TargetEnv.dev = true
same_env TargetEnv.staging TargetEnv.staging = true
same_env TargetEnv.prod TargetEnv.prod = true
same_env _ _ = false

abbrev pub same_status : Status → Status → Bool
same_status Status.draft Status.draft = true
same_status Status.submitted Status.submitted = true
same_status Status.review_approved Status.review_approved = true
same_status Status.review_rejected Status.review_rejected = true
same_status Status.final_approved Status.final_approved = true
same_status Status.final_rejected Status.final_rejected = true
same_status Status.applied Status.applied = true
same_status _ _ = false

abbrev pub is_mysql : DbType → Bool
is_mysql DbType.mysql = true
is_mysql _ = false

abbrev pub is_running : ExecutionStatus → Bool
is_running ExecutionStatus.running = true
is_running _ = false

abbrev pub is_success : ExecutionStatus → Bool
is_success ExecutionStatus.success = true
is_success _ = false

abbrev pub is_apply : ExecutionKind → Bool
is_apply ExecutionKind.apply = true
is_apply _ = false

-- `decision === APPROVE`, for a decision that may be null.
abbrev pub is_approve : Option Decision → Bool
is_approve (some Decision.approve) = true
is_approve _ = false
