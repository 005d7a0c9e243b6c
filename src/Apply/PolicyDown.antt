-- ===== src/Apply/PolicyDown.antt =====
-- What an apply is let through for when the review policy cannot be read.
use dbflow.Common.{false, ◌≡◌, ◌⊎◌}
use dbflow.Sql.Analyzer.{StatementKind, AnalyzedStatement}

-- A statement that drops a database or a table, truncates a table, or deletes or updates without WHERE.
-- An ALTER TABLE that drops a column is not among them.
abbrev pub DropsOrEmpties : AnalyzedStatement → Type 0
DropsOrEmpties s =
    (s.kind ≡ StatementKind.drop_database)
    ⊎ (s.kind ≡ StatementKind.drop_table)
    ⊎ (s.kind ≡ StatementKind.truncate)
    ⊎ (((s.kind ≡ StatementKind.delete) ⊎ (s.kind ≡ StatementKind.update)) × (s.has_where ≡ false))
