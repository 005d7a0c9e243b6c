-- ===== src/Sql/Split.antt =====
-- Stripping of comments and splitting into statements: `splitSqlStatements` of
-- apps/api/src/apply/sql-analyzer.ts.
use mathlib.Core.List.{map}
use dbflow.Common.{ℕ, ◌+◌, ◌==◌, Bool, true, false, not, ◌&&◌, List, [], ◌∷◌, ◌++◌, if◌then◌else◌}
use dbflow.Sql.Regex.{Text, Regex, star, star_lazy, is_space, trim, replace_all}
use dbflow.Sql.Patterns.{◌>>>◌, lit, any_char, not_newline}

pub record Statement : Type 0 where
  pub raw : Text
  pub line : ℕ

unfoldable pub block_comment : Regex
block_comment = lit "/*" >>> star_lazy any_char >>> lit "*/"

unfoldable pub dash_comment : Regex
dash_comment = lit "--" >>> star not_newline

unfoldable pub hash_comment : Regex
hash_comment = lit "#" >>> star not_newline

-- `m.replace(/[^\n]/g, ' ')`.
blank : Text → Text
blank = map (λ c. if c == 10 then 10 else 32)

-- The three replacements, in order.
unfoldable pub strip_comments : Text → Text
unfolding block_comment dash_comment hash_comment blank replace_all
strip_comments sql =
    replace_all hash_comment (λ _. [])
      (replace_all dash_comment (λ _. []) (replace_all block_comment blank sql))

abbrev pub is_empty : Text → Bool
is_empty [] = true
is_empty (c ∷ s) = false

-- `if (current.trim()) statements.push(...)`.
abbrev flush : Text → ℕ → List Statement
flush current start_line =
    let raw = trim current in
    if is_empty raw then [] else record { raw = raw; line = start_line } ∷ []

-- The loop over the characters: the current statement, the line, the line on which the statement
-- started, and whether it has.
unfoldable pub split_loop : Text → ℕ → ℕ → Bool → Text → List Statement
unfolding trim
split_loop current line start_line started [] = flush current start_line
split_loop current line start_line started (c ∷ s) =
    let begins = not started && not (is_space c) in
    let start = if begins then line else start_line in
    let next_line = if c == 10 then line + 1 else line in
    (if c == b';' then flush current start else [])
    ++ split_loop (if c == b';' then [] else current ++ (c ∷ [])) next_line start
        (if c == b';' then false else (if begins then true else started)) s

-- `splitSqlStatements`.
unfoldable pub split_sql_statements : Text → List Statement
unfolding strip_comments split_loop
split_sql_statements sql = split_loop [] 1 1 false (strip_comments sql)
