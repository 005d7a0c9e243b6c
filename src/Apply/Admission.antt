-- ===== src/Apply/Admission.antt =====
-- What an apply is let through for: the checks of `apply` in apps/api/src/apply/apply.service.ts, and
-- the policy levels that they lint with.
use dbflow.Common.{
  ℕ, true, false, ◌≡◌, refl, ap, subst, ◌∙◌, ◌≢◌, ◌↔◌, ◌⊎◌, inl, inr, List, map, some, In, In-map,
  In-map_of, Bool-cases, Option-cases, arith,
}
use dbflow.Store.{
  Key, Actor, Role, TargetEnv, same_env, Status, same_status, is_mysql, DbType, TargetDatabase,
  File, SqlReviewLevel, Context, Db, Failure, Message, Result, Result-cases, ok, err, ◌>>=◌, ◌>>◌,
  guard,
}
use dbflow.Store
use dbflow.ChangeRequest.Records.{find_cr}
use dbflow.ApplySchedule.{
  Zone, ScheduleStatus, check_apply_allowed, assert_apply_allowed, schedule_result,
}
use dbflow.Sql.Analyzer.{AnalyzedStatement, analyze_sql}
use dbflow.Sql.Lint.{Rule, rules, rule_key, matches, policy_get, LintFile, has_block}
use dbflow.Sql.Lint.Blocking.{has_block_iff}
use dbflow.SqlReview.{level_in, get_policy_map}
use dbflow.Apply.Policy.{assert_apply_permission, assert_env_match}
use dbflow.Apply.Gate.{
  Ticket, assert_approval_gate, files_of, lint_file, lint_of, find_target, gate,
}

-- Every rule has the level that the environment gives it.
policy_get-get_policy_map :
    (ctx : Context) (db : Db) (env : TargetEnv) (rule : Rule)
    → policy_get (rule_key rule) (get_policy_map ctx db env) ≡ some (level_in ctx db env rule)
unfolding get_policy_map
policy_get-get_policy_map ctx db env Rule.drop_database = refl
policy_get-get_policy_map ctx db env Rule.drop_table = refl
policy_get-get_policy_map ctx db env Rule.truncate = refl
policy_get-get_policy_map ctx db env Rule.delete_without_where = refl
policy_get-get_policy_map ctx db env Rule.update_without_where = refl
policy_get-get_policy_map ctx db env Rule.alter_drop_column = refl
policy_get-get_policy_map ctx db env Rule.drop_index = refl

In-rules : (rule : Rule) → In rule rules
In-rules rule = ground arith

-- One of the files holds a statement that a rule at level BLOCK matches.
abbrev pub IsRisky : Context → Db → TargetEnv → List File → Type 0
IsRisky ctx db env files =
    (f : File) × In f files
    × ((s : AnalyzedStatement) × In s (analyze_sql f.content)
        × ((r : Rule) × (matches r s ≡ true) × (level_in ctx db env r ≡ SqlReviewLevel.block)))

-- Who may apply: an approver, and on a development database also the developer who made the request.
abbrev pub MayApply : Actor → TargetEnv → Key → Type 0
MayApply actor env author_id =
    (actor.role ≡ Role.approver)
    ⊎ ((env ≡ TargetEnv.dev) × (actor.role ≡ Role.developer) × (actor.user_id ≡ author_id))

-- Outside a development database only a finally approved request; there, one that is neither rejected
-- nor applied.
abbrev pub IsApplicable : TargetEnv → Status → Type 0
IsApplicable TargetEnv.dev status =
    (status ≢ Status.review_rejected) × (status ≢ Status.final_rejected) × (status ≢ Status.applied)
IsApplicable _ status = status ≡ Status.final_approved

permission_iff :
    (actor : Actor) (env : TargetEnv) (author_id : Key)
    → (assert_apply_permission actor env author_id ≡ ok tt) ↔ MayApply actor env author_id
unfolding assert_apply_permission
permission_iff actor env author_id = (λ e. ground arith, λ h. ground arith)

approval_iff :
    (env : TargetEnv) (status : Status)
    → (assert_approval_gate env status ≡ ok tt) ↔ IsApplicable env status
unfolding assert_approval_gate
approval_iff TargetEnv.dev status =
    (λ e. (λ h. ground arith, λ h. ground arith, λ h. ground arith), λ h. ground arith)
approval_iff TargetEnv.staging status = (λ e. ground arith, λ h. ground arith)
approval_iff TargetEnv.prod status = (λ e. ground arith, λ h. ground arith)

env_match_iff : (a b : TargetEnv) → (assert_env_match a b ≡ ok tt) ↔ (a ≡ b)
unfolding assert_env_match
env_match_iff a b = (λ e. ground arith, λ h. ground arith)

allowed_iff :
    (zone : Zone) (db : Db) (env : TargetEnv) (now : ℕ)
    → (assert_apply_allowed zone db env now ≡ ok tt)
      ↔ (check_apply_allowed zone db env now ≡ ScheduleStatus.allowed)
unfolding assert_apply_allowed schedule_result
allowed_iff zone db env now = (λ e. ground arith, λ h. ground arith)

IsRisky-iff :
    (ctx : Context) (db : Db) (env : TargetEnv) (files : List File)
    → (has_block (lint_of ctx db env files) ≡ true) ↔ IsRisky ctx db env files
unfolding lint_of
IsRisky-iff ctx db env files =
    let blocking = has_block_iff (map lint_file files) (get_policy_map ctx db env) in
    (
      λ e.
          let (l, m, (s, n, (r, _, (hit, level)))) = blocking.0 e in
          let (f, k, same) = In-map lint_file files l m in
          (
            f,
            k,
            (
              s,
              subst (λ (l : LintFile). In s (analyze_sql l.content)) same n,
              (r, hit, ground (arith, policy_get-get_policy_map ctx db env r)),
            ),
          ),
      λ (f, k, (s, n, (r, hit, level))). blocking.1 (
        lint_file f,
        In-map_of lint_file files f k,
        (s, n, (r, In-rules r, (hit, policy_get-get_policy_map ctx db env r ∙ ap some level))),
      ),
    )

-- The conditions of an apply of one change request to one target.
pub record IsAdmitted (zone : Zone) (ctx : Context) (db : Db) (actor : Actor) (t : Ticket)
    : Type 0 where
  pub env : t.cr.target_env ≡ t.target.env
  pub permission : MayApply actor t.target.env t.cr.author_id
  pub status : IsApplicable t.target.env t.cr.status
  pub open' : check_apply_allowed zone db t.target.env ctx.now ≡ ScheduleStatus.allowed
  pub engine : t.target.db_type ≡ DbType.mysql
  pub safe : ¬ IsRisky ctx db t.target.env t.files

IsAdmitted-iff :
    (zone : Zone) (ctx : Context) (db : Db) (actor : Actor) (cr : Store.ChangeRequest)
    (target : TargetDatabase) (files : List File)
    → ((assert_env_match cr.target_env target.env ≡ ok tt)
        × (assert_apply_permission actor target.env cr.author_id ≡ ok tt)
        × (assert_approval_gate target.env cr.status ≡ ok tt)
        × (assert_apply_allowed zone db target.env ctx.now ≡ ok tt)
        × (is_mysql target.db_type ≡ true)
        × (has_block (lint_of ctx db target.env files) ≡ false))
      ↔ IsAdmitted zone ctx db actor (record { cr = cr; target = target; files = files })
IsAdmitted-iff zone ctx db actor cr target files =
    let env = env_match_iff cr.target_env target.env in
    let permission = permission_iff actor target.env cr.author_id in
    let status = approval_iff target.env cr.status in
    let open' = allowed_iff zone db target.env ctx.now in
    let risky = IsRisky-iff ctx db target.env files in
    (
      λ (a, b, c, d, engine, safe). record {
        env = env.0 a;
        permission = permission.0 b;
        status = status.0 c;
        open' = open'.0 d;
        engine = ground arith;
        safe = λ h. absurd (cc (risky.1 h, safe));
      },
      λ h. (
        env.1 h.env,
        permission.1 h.permission,
        status.1 h.status,
        open'.1 h.open',
        ap is_mysql h.engine,
        elim (Bool-cases (has_block (lint_of ctx db target.env files))) [
          | inl blocks ↦ absurd (h.safe (risky.0 blocks))
          | inr passes ↦ passes
        ],
      ),
    )

-- An apply passes its checks exactly when the change request and the target exist, their environments
-- agree, the user may apply there, the status allows it, no freeze or window is against it, the target
-- is MySQL and no file holds a statement that a rule at level BLOCK matches.
pub gate_iff :
    (zone : Zone) (ctx : Context) (db : Db) (actor : Actor) (cr_id target_id : Key) (t : Ticket)
    → (gate zone ctx db actor cr_id target_id ≡ ok t) ↔ (
        (find_cr cr_id db ≡ some t.cr)
        × (find_target target_id db ≡ some t.target)
        × (files_of cr_id db ≡ t.files)
        × IsAdmitted zone ctx db actor t)
unfolding gate
gate_iff zone ctx db actor cr_id target_id t = (
  λ e. elim (Option-cases (find_cr cr_id db)) [
    | inl missing ↦ absurd (ground arith)
    | inr (cr, found) ↦ elim (Option-cases (find_target target_id db)) [
      | inl missing ↦ absurd (ground arith)
      | inr (target, at) ↦
          let files = files_of cr_id db in
          let same : t ≡ record { cr = cr; target = target; files = files } = ground arith in
          rw same (
            found,
            at,
            refl,
            (IsAdmitted-iff zone ctx db actor cr target files).0 (
              ground arith,
              ground arith,
              ground arith,
              ground arith,
              ground arith,
              ground arith,
            ),
          )
    ]
  ],
  λ (found, at, files, a).
      let (env, permission, status, open', engine, safe) =
        (IsAdmitted-iff zone ctx db actor t.cr t.target t.files).1 a in
      ground arith,
)
