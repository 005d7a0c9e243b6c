-- ===== src/Apply/Policy.antt =====
-- Who may apply where: apps/api/src/apply/apply-policy.ts.
use dbflow.Common.{◌==◌, ◌&&◌, ◌||◌}
use dbflow.Store.{
  Key, Actor, Role, same_role, TargetEnv, same_env, forbidden, conflict, Message, Result, guard,
}

-- `assertApplyPermission`.
unfoldable pub assert_apply_permission : Actor → TargetEnv → Key → Result (Unit {0})
assert_apply_permission actor TargetEnv.dev author_id =
    guard
      (same_role actor.role Role.approver
        || (same_role actor.role Role.developer && (actor.user_id == author_id)))
      (forbidden Message.dev_permission_denied)
assert_apply_permission actor _ author_id =
    guard (same_role actor.role Role.approver) (forbidden Message.staging_prod_permission_denied)

-- `assertEnvMatch`.
unfoldable pub assert_env_match : TargetEnv → TargetEnv → Result (Unit {0})
assert_env_match cr_env target_env =
    guard (same_env cr_env target_env) (conflict Message.env_mismatch)
