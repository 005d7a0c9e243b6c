-- ===== src/Sql/Tests.antt =====
-- The analyzer on inputs of its test file, apps/api/src/apply/sql-analyzer.spec.ts, and others.
use dbflow.Common.{ℕ, ◌≡◌, refl, [], ◌∷◌, map, none, some, Bool, true, false}
use dbflow.Sql.Regex.{codes}
use dbflow.Sql.Split.{split_sql_statements}
use dbflow.Sql.Analyzer.{StatementKind, classify, analyze_statement, analyze_sql}

classify_tests :
    (classify (codes "drop  table if exists `users`")
      ≡ (StatementKind.drop_table, some (codes "users")))
    × (classify (codes "ALTER TABLE t DROP COLUMN c")
        ≡ (StatementKind.alter_table, some (codes "t")))
    × (classify (codes "DROP DATABASE x") ≡ (StatementKind.drop_database, none))
    × (classify (codes "WITH a AS (SELECT 1) DELETE FROM t") ≡ (StatementKind.other, none))
unfolding classify
classify_tests = (refl, refl, refl, refl)

split_tests :
    map (λ s. s.raw) (split_sql_statements (codes "-- c;\nSELECT 1; /* ; */ DELETE FROM t;"))
    ≡ codes "SELECT 1" ∷ codes "DELETE FROM t" ∷ []
unfolding split_sql_statements
split_tests = refl

analyze_tests :
    map {B = ℕ × Bool}
      (λ s. (s.line, s.has_where))
      (analyze_sql (codes "UPDATE t SET a = 1\n  WHERE b;\n\nDELETE FROM t"))
    ≡ (1, true) ∷ (4, false) ∷ []
unfolding analyze_sql analyze_statement split_sql_statements
analyze_tests = refl
