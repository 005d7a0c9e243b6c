-- ===== src/Sql/Lint.antt =====
-- The risky-SQL lint: apps/api/src/apply/lint.engine.ts. A policy map is an association list.
pub mod Blocking
use text.Mathlib.Text.{◌==◌ as str_eq}
use dbflow.Common.{
  ℕ, String, ltb, Bool, true, false, not, ◌&&◌, ◌||◌, List, [], ◌∷◌, ◌++◌, map, Option, none, some,
  if◌then◌else◌,
}
use dbflow.Store.{TargetEnv, SqlReviewLevel}
use dbflow.Sql.Regex.{Text}
use dbflow.Sql.Analyzer.{StatementKind, AnalyzedStatement, analyze_sql}

pub data LintSeverity : Type 0 where
  info warn block : LintSeverity

-- The entries of `RULES`.
pub data Rule : Type 0 where
  drop_database drop_table truncate delete_without_where update_without_where : Rule
  alter_drop_column drop_index : Rule

abbrev pub rules : List Rule
rules =
    Rule.drop_database ∷ Rule.drop_table ∷ Rule.truncate ∷ Rule.delete_without_where
    ∷ Rule.update_without_where ∷ Rule.alter_drop_column ∷ Rule.drop_index ∷ []

-- `rule.rule`.
abbrev pub rule_key : Rule → String
rule_key Rule.drop_database = "DROP_DATABASE"
rule_key Rule.drop_table = "DROP_TABLE"
rule_key Rule.truncate = "TRUNCATE"
rule_key Rule.delete_without_where = "DELETE_WITHOUT_WHERE"
rule_key Rule.update_without_where = "UPDATE_WITHOUT_WHERE"
rule_key Rule.alter_drop_column = "ALTER_DROP_COLUMN"
rule_key Rule.drop_index = "DROP_INDEX"

-- `rule.base`.
unfoldable pub base_severity : Rule → LintSeverity
base_severity Rule.alter_drop_column = LintSeverity.warn
base_severity Rule.drop_index = LintSeverity.info
base_severity _ = LintSeverity.block

-- `rule.matches`, by the statement's kind and flags.
unfoldable pub matches_kind : Rule → StatementKind → Bool → Bool → Bool → Bool
matches_kind Rule.drop_database StatementKind.drop_database w c i = true
matches_kind Rule.drop_table StatementKind.drop_table w c i = true
matches_kind Rule.truncate StatementKind.truncate w c i = true
matches_kind Rule.delete_without_where StatementKind.delete w c i = not w
matches_kind Rule.update_without_where StatementKind.update w c i = not w
matches_kind Rule.alter_drop_column StatementKind.alter_table w c i = c
matches_kind Rule.drop_index StatementKind.drop_index w c i = true
matches_kind Rule.drop_index StatementKind.alter_table w c i = i
matches_kind _ _ w c i = false

unfoldable pub matches : Rule → AnalyzedStatement → Bool
unfolding matches_kind
matches rule s = matches_kind rule s.kind s.has_where s.alter_drop_column s.alter_drop_index

-- `effectiveSeverity`: a development database never blocks.
unfoldable pub effective_severity : LintSeverity → TargetEnv → LintSeverity
effective_severity LintSeverity.block TargetEnv.dev = LintSeverity.warn
effective_severity base _ = base

pub record LintItem : Type 0 where
  pub filename : String
  pub line : ℕ
  pub rule : Rule
  pub severity : LintSeverity

abbrev pub PolicyMap : Type 0
PolicyMap = List (String × SqlReviewLevel)

-- `policy.get(key)`.
abbrev pub policy_get : String → PolicyMap → Option SqlReviewLevel
policy_get key [] = none
policy_get key ((k, level) ∷ policy) = if str_eq k key then some level else policy_get key policy

-- `level as LintSeverity`; a missing or disabled level reports nothing.
abbrev pub severity_of : Option SqlReviewLevel → Option LintSeverity
severity_of (some SqlReviewLevel.info) = some LintSeverity.info
severity_of (some SqlReviewLevel.warn) = some LintSeverity.warn
severity_of (some SqlReviewLevel.block) = some LintSeverity.block
severity_of _ = none

-- A file as the lint reads it: its name and its analyzed statements.
unfoldable pub report : String → ℕ → Rule → Option LintSeverity → List LintItem
report filename line rule none = []
report filename line rule (some severity) =
    record { filename = filename; line = line; rule = rule; severity = severity } ∷ []

unfoldable pub lint_rules : PolicyMap → String → AnalyzedStatement → List Rule → List LintItem
unfolding report matches
lint_rules policy filename stmt [] = []
lint_rules policy filename stmt (rule ∷ rest) =
    (if matches rule stmt
      then report filename stmt.line rule (severity_of (policy_get (rule_key rule) policy))
      else [])
    ++ lint_rules policy filename stmt rest

unfoldable pub lint_statements : PolicyMap → String → List AnalyzedStatement → List LintItem
unfolding lint_rules
lint_statements policy filename [] = []
lint_statements policy filename (stmt ∷ rest) =
    lint_rules policy filename stmt rules ++ lint_statements policy filename rest

pub record LintFile : Type 0 where
  pub filename : String
  pub content : Text

unfoldable pub lint_items : PolicyMap → List LintFile → List LintItem
unfolding lint_statements
lint_items policy [] = []
lint_items policy (file ∷ files) =
    lint_statements policy file.filename (analyze_sql file.content) ++ lint_items policy files

-- `SEVERITY_ORDER`.
abbrev pub severity_order : LintSeverity → ℕ
severity_order LintSeverity.info = 0
severity_order LintSeverity.warn = 1
severity_order LintSeverity.block = 2

-- The `reduce` that keeps the higher severity.
unfoldable pub max_severity : LintSeverity → List LintItem → LintSeverity
max_severity most [] = most
max_severity most (i ∷ items) =
    max_severity
      (if ltb (severity_order most) (severity_order i.severity) then i.severity else most) items

pub record LintResult : Type 0 where
  pub items : List LintItem
  pub max_severity : LintSeverity

-- `lintFiles`.
unfoldable pub lint_files : List LintFile → PolicyMap → LintResult
unfolding lint_items max_severity
lint_files files policy =
    let items = lint_items policy files in
    record { items = items; max_severity = max_severity LintSeverity.info items }

-- `hasBlock`.
unfoldable pub has_block : LintResult → Bool
has_block result = elim result.max_severity [ LintSeverity.block ↦ true | _ ↦ false ]
