-- ===== src/ApprovalPolicy.antt =====
-- How many approvals an environment requires:
-- apps/api/src/approval-policy/approval-policy.service.ts.
use dbflow.Common.{ℕ, List, [], ◌∷◌, map, Option, none, some, if◌then◌else◌, find}
use dbflow.Store.{
  Actor, TargetEnv, same_env, Db, Context, AuditAction, AuditTargetType, AuditOutcome, AuditTarget,
}
use dbflow.Store
use dbflow.Audit.{build_data, record_log}

abbrev required_of : Option Store.ApprovalPolicy → ℕ
required_of none = 1
required_of (some row) = row.required_approvals

unfoldable pub find_policy : TargetEnv → Db → Option Store.ApprovalPolicy
find_policy env db = find (λ row. same_env row.env env) db.approval_policies

-- `getRequired`: a missing row and a failed read both give 1.
unfoldable pub get_required : Context → Db → TargetEnv → ℕ
unfolding find_policy
get_required ctx db env = if ctx.policy_up then required_of (find_policy env db) else 1

-- `list`.
unfoldable pub list_policies : Db → List (TargetEnv × ℕ)
unfolding find_policy
list_policies db =
    map (λ env. (env, required_of (find_policy env db)))
      (TargetEnv.dev ∷ TargetEnv.staging ∷ TargetEnv.prod ∷ [])

-- `upsert` on the unique environment.
unfoldable pub upsert_policy : TargetEnv → ℕ → List Store.ApprovalPolicy → List Store.ApprovalPolicy
upsert_policy env n [] = record { env = env; required_approvals = n } ∷ []
upsert_policy env n (row ∷ rows) =
    let rest = upsert_policy env n rows in
    if same_env row.env env then record row { required_approvals = n } ∷ rows else row ∷ rest

-- `update`.
unfoldable pub update_policy : Context → Db → TargetEnv → ℕ → Actor → Db
unfolding upsert_policy
update_policy ctx db env n actor =
    record_log ctx
      (build_data actor AuditAction.approval_policy_updated AuditTargetType.approval_policy
        (AuditTarget.policy env) AuditOutcome.success)
      (record db { approval_policies = upsert_policy env n db.approval_policies })
