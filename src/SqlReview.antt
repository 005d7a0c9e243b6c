-- ===== src/SqlReview.antt =====
-- The SQL review policy: apps/api/src/sql-review/sql-review.service.ts.
use text.Mathlib.Text.{◌==◌ as str_eq}
use dbflow.Common.{String, ◌&&◌, List, [], ◌∷◌, map, Option, none, some, if◌then◌else◌, find, any}
use dbflow.Store.{
  TargetEnv, same_env, SqlReviewLevel, SqlReviewRule, Actor, Db, Context, AuditAction,
  AuditTargetType, AuditTarget, AuditOutcome, bad_request, Message, Result, ok, ◌>>◌, guard,
}
use dbflow.Audit.{build_data, record_log}
use dbflow.Sql.Lint.{
  Rule, rules, rule_key, base_severity, LintSeverity, effective_severity, PolicyMap,
}

-- `severity as SqlReviewLevel`.
abbrev pub level_of : LintSeverity → SqlReviewLevel
level_of LintSeverity.info = SqlReviewLevel.info
level_of LintSeverity.warn = SqlReviewLevel.warn
level_of LintSeverity.block = SqlReviewLevel.block

-- `byKey.get(key)`, where a later row of the same key replaces an earlier one.
unfoldable pub stored_level : TargetEnv → String → List SqlReviewRule → Option SqlReviewLevel
stored_level env key [] = none
stored_level env key (row ∷ rows) =
    let later = stored_level env key rows in
    elim later [
      | some level ↦ some level
      | none ↦ if same_env row.env env && str_eq row.rule_key key then some row.level else none
    ]

abbrev or_level : Option SqlReviewLevel → SqlReviewLevel → SqlReviewLevel
or_level none base = base
or_level (some level) base = level

-- The level of a rule: the stored one, or its severity in the environment when there is none.
unfoldable pub level_in : Context → Db → TargetEnv → Rule → SqlReviewLevel
level_in ctx db env rule =
    or_level (if ctx.policy_up then stored_level env (rule_key rule) db.sql_rules else none)
      (level_of (effective_severity (base_severity rule) env))

-- `getPolicyMap`: an entry for every rule.
unfoldable pub get_policy_map : Context → Db → TargetEnv → PolicyMap
get_policy_map ctx db env = map (λ rule. (rule_key rule, level_in ctx db env rule)) rules

-- `rows.find(r => r.env === env && r.ruleKey === key)?.level ?? base`: the first such row.
abbrev first_level : Db → TargetEnv → Rule → SqlReviewLevel
first_level db env rule =
    elim (find (λ r. same_env r.env env && str_eq r.rule_key (rule_key rule)) db.sql_rules) [
      | none ↦ level_of (effective_severity (base_severity rule) env)
      | some r ↦ r.level
    ]

pub record CatalogEntry : Type 0 where
  pub rule : Rule
  pub dev : SqlReviewLevel
  pub staging : SqlReviewLevel
  pub prod : SqlReviewLevel

-- `listCatalogWithLevels`.
unfoldable pub list_catalog_with_levels : Db → List CatalogEntry
list_catalog_with_levels db =
    map
      (λ rule. record {
        rule = rule;
        dev = first_level db TargetEnv.dev rule;
        staging = first_level db TargetEnv.staging rule;
        prod = first_level db TargetEnv.prod rule;
      })
      rules

-- `upsert` on the unique pair (environment, rule key).
unfoldable pub upsert_rule :
    TargetEnv → String → SqlReviewLevel → List SqlReviewRule → List SqlReviewRule
upsert_rule env key level [] = record { env = env; rule_key = key; level = level } ∷ []
upsert_rule env key level (row ∷ rows) =
    let rest = upsert_rule env key level rows in
    if same_env row.env env && str_eq row.rule_key key
    then record row { level = level } ∷ rows
    else row ∷ rest

-- `update`.
unfoldable pub update_rule : Context → Db → TargetEnv → String → SqlReviewLevel → Actor → Result Db
unfolding upsert_rule
update_rule ctx db env key level actor = do
  guard (any (λ rule. str_eq (rule_key rule) key) rules) (bad_request Message.unknown_rule)
  ok (
      record_log ctx
        (build_data actor AuditAction.sql_policy_updated AuditTargetType.sql_review_policy
          (AuditTarget.rule env key) AuditOutcome.success)
        (record db { sql_rules = upsert_rule env key level db.sql_rules }))
