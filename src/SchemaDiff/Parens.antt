-- ===== src/SchemaDiff/Parens.antt =====
-- Parentheses and commas: `extractParenBody` and `splitTopLevel` of
-- apps/api/src/schema-diff/desired-schema-parser.ts.
use dbflow.Common.{ℕ, zero, suc, ◌==◌, ◌&&◌, List, [], ◌∷◌, ◌++◌, Option, none, some, if◌then◌else◌}
use dbflow.Store.{Text}
use dbflow.Sql.Regex.{trim}
use dbflow.Sql.Split.{is_empty}

-- The loop after the opening parenthesis, with `depth` more of them open: what is read up to the one
-- that closes the first.
unfoldable pub close_paren : ℕ → Text → Text → Option Text
close_paren depth read [] = none
close_paren depth read (c ∷ s) =
    if c == b'('
    then close_paren (suc depth) (read ++ (c ∷ [])) s
    else (if c == b')'
        then elim depth [ zero ↦ some read | suc d ↦ close_paren d (read ++ (c ∷ [])) s ]
        else close_paren depth (read ++ (c ∷ [])) s)

-- `extractParenBody(str, str.indexOf('('))`.
unfoldable pub paren_body : Text → Option Text
unfolding close_paren
paren_body [] = none
paren_body (c ∷ s) = let later = paren_body s in if c == b'(' then close_paren 0 [] s else later

-- The loop of `splitTopLevel`. The depth, which may be below zero, is the number of opening parentheses
-- less that of closing ones.
unfoldable pub split_commas : ℕ → ℕ → Text → Text → List Text
unfolding trim
split_commas opened closed current [] = if is_empty (trim current) then [] else current ∷ []
split_commas opened closed current (c ∷ s) =
    let opened' = if c == b'(' then suc opened else opened in
    let closed' = if c == b')' then suc closed else closed in
    let cut = (c == b',') && (opened' == closed') in
    let rest = split_commas opened' closed' (if cut then [] else current ++ (c ∷ [])) s in
    if cut then current ∷ rest else rest

-- `splitTopLevel`.
unfoldable pub split_top_level : Text → List Text
unfolding split_commas
split_top_level body = split_commas 0 0 [] body
