-- ===== src/Apply/Gate.antt =====
-- The checks that an apply passes before anything is written: the first half of `apply` in
-- apps/api/src/apply/apply.service.ts, and its `lint`.
use dbflow.Common.{◌==◌, not, List, [], ◌∷◌, map, Option, find, any, filter, sort_asc}
use dbflow.Store.{
  Key, Actor, TargetEnv, Status, same_status, is_mysql, TargetDatabase, File, Context, Db, Failure,
  not_found, conflict, Message, Result, ok, err, ◌>>=◌, ◌>>◌, guard, or_throw,
}
use dbflow.Store
use dbflow.ChangeRequest.Records.{find_cr, get_or_throw}
use dbflow.ApplySchedule.{Zone, assert_apply_allowed}
use dbflow.Sql.Lint.{LintFile, LintResult, lint_files, has_block}
use dbflow.SqlReview.{get_policy_map}
use dbflow.Apply.Policy.{assert_apply_permission, assert_env_match}

-- `DEV_BLOCKED_STATUSES`.
abbrev pub dev_blocked_statuses : List Status
dev_blocked_statuses = Status.review_rejected ∷ Status.final_rejected ∷ Status.applied ∷ []

-- `assertApprovalGate`.
unfoldable pub assert_approval_gate : TargetEnv → Status → Result (Unit {0})
assert_approval_gate TargetEnv.dev status =
    guard (not (any (same_status status) dev_blocked_statuses))
      (conflict (Message.rejected_or_applied_status status))
assert_approval_gate _ status =
    guard (same_status status Status.final_approved)
      (conflict (Message.staging_prod_requires_final_approved status))

-- The files of a change request, by their order.
abbrev pub files_of : Key → Db → List File
files_of id db = sort_asc (λ f. f.order) (filter (λ f. f.change_request_id == id) db.files)

abbrev pub lint_file : File → LintFile
lint_file f = record { filename = f.filename; content = f.content }

unfoldable pub lint_of : Context → Db → TargetEnv → List File → LintResult
lint_of ctx db env files = lint_files (map lint_file files) (get_policy_map ctx db env)

-- `lint`.
unfoldable pub lint : Context → Db → Key → Result LintResult
unfolding lint_of
lint ctx db id = do cr ← get_or_throw db id; ok (lint_of ctx db cr.target_env (files_of id db))

-- What `apply` has read when it has passed its checks. The row of the change request is a copy.
pub record Ticket : Type 0 where
  pub cr : Store.ChangeRequest
  pub target : TargetDatabase
  pub files : List File

abbrev pub find_target : Key → Db → Option TargetDatabase
find_target id db = find (λ t. t.id == id) db.targets

-- `apply`, up to and with the lint.
unfoldable pub gate : Zone → Context → Db → Actor → Key → Key → Result Ticket
gate zone ctx db actor cr_id target_id = do
  cr ← or_throw (find_cr cr_id db) (not_found Message.change_request_not_found)
  target ← or_throw (find_target target_id db) (not_found Message.target_not_found)
  assert_env_match cr.target_env target.env
  assert_apply_permission actor target.env cr.author_id
  assert_approval_gate target.env cr.status
  assert_apply_allowed zone db target.env ctx.now
  guard (is_mysql target.db_type) (conflict Message.apply_mysql_only)
  guard (not (has_block (lint_of ctx db target.env (files_of cr_id db))))
      (conflict Message.block_lint_detected)
  ok (record { cr = cr; target = target; files = files_of cr_id db })
