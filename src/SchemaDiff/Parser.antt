-- ===== src/SchemaDiff/Parser.antt =====
-- The parser of the desired schema: apps/api/src/schema-diff/desired-schema-parser.ts.
use dbflow.Common.{
  ℕ, ◌==◌, Bool, true, false, not, ◌&&◌, List, [], ◌∷◌, ◌++◌, map, Option, none, some,
  if◌then◌else◌, filter, is_some,
}
use dbflow.Store.{Text}
use dbflow.Sql.Regex.{
  Regex, word_edge, at_end, group, alt, star, set, codes, is_word, is_letter, trim, Cursor,
  match_at_start, test, captured, replace_all,
}
use dbflow.Sql.Patterns.{◌>>>◌, lit, spaces, spaces?, maybe, many, quote, name, any_char}
use dbflow.Sql.Split.{is_empty, block_comment, dash_comment, hash_comment}
use dbflow.SchemaDiff.Model.{ColumnDef, IndexDef, TableDef, Schema, map_set, normalize_type}
use dbflow.SchemaDiff.Parens.{close_paren, paren_body, split_top_level}

-- `stripComments`: each comment leaves a space.
unfoldable pub strip_to_spaces : Text → Text
unfolding block_comment dash_comment hash_comment replace_all
strip_to_spaces sql =
    replace_all hash_comment (λ _. 32 ∷ [])
      (replace_all dash_comment (λ _. 32 ∷ []) (replace_all block_comment (λ _. 32 ∷ []) sql))

-- `sql.split(';')`.
unfoldable pub split_semicolons : Text → Text → List Text
split_semicolons current [] = current ∷ []
split_semicolons current (c ∷ s) =
    let rest = split_semicolons (if c == b';' then [] else current ++ (c ∷ [])) s in
    if c == b';' then current ∷ rest else rest

-- `splitStatements`.
unfoldable pub split_statements : Text → List Text
unfolding split_semicolons trim
split_statements sql = filter (λ s. not (is_empty s)) (map trim (split_semicolons [] sql))

open_paren : Regex
open_paren = lit "("

header_pattern : Regex
unfolding open_paren
header_pattern =
    lit "CREATE"
    >>> spaces
    >>> lit "TABLE"
    >>> spaces
    >>> maybe (lit "IF" >>> spaces >>> lit "NOT" >>> spaces >>> lit "EXISTS" >>> spaces)
    >>> name
    >>> spaces?
    >>> open_paren

primary_pattern : Regex
primary_pattern = lit "PRIMARY" >>> spaces >>> lit "KEY"

unique_pattern : Regex
unfolding open_paren
unique_pattern =
    lit "UNIQUE"
    >>> spaces
    >>> maybe (alt (lit "KEY") (lit "INDEX"))
    >>> spaces?
    >>> quote
    >>> maybe (group 1 (many (set is_word)))
    >>> quote
    >>> spaces?
    >>> open_paren

plain_pattern : Regex
unfolding open_paren
plain_pattern = alt (lit "KEY") (lit "INDEX") >>> spaces >>> name >>> spaces? >>> open_paren

unsupported_pattern : Regex
unsupported_pattern =
    alt (lit "CONSTRAINT") (alt (lit "FOREIGN" >>> spaces >>> lit "KEY") (lit "CHECK"))
    >>> word_edge

column_pattern : Regex
column_pattern = name >>> spaces >>> group 2 (many any_char) >>> at_end

type_pattern : Regex
type_pattern = group 1 (
    many (set is_letter)
    >>> maybe (spaces? >>> lit "(" >>> star (set (λ c. not (c == b')'))) >>> lit ")")
    >>> maybe (spaces >>> lit "unsigned")
    >>> maybe (spaces >>> lit "zerofill"))

inline_key_pattern : Regex
inline_key_pattern = word_edge >>> lit "PRIMARY" >>> spaces >>> lit "KEY" >>> word_edge

not_null_pattern : Regex
not_null_pattern = word_edge >>> lit "NOT" >>> spaces >>> lit "NULL" >>> word_edge

-- `m?.[i]`.
abbrev group_of : ℕ → Option Cursor → Option Text
group_of i none = none
group_of i (some t) = captured i t.groups

abbrev text_or_empty : Option Text → Text
text_or_empty none = []
text_or_empty (some s) = s

-- The names that are there and not empty: `filter(Boolean)`.
unfoldable pub given_names : List (Option Text) → List Text
given_names [] = []
given_names (none ∷ names) = given_names names
given_names (some s ∷ names) = if is_empty s then given_names names else s ∷ given_names names

columns_in : Option Text → List Text
unfolding split_top_level given_names match_at_start trim
columns_in none = []
columns_in (some body) =
    given_names (map (λ c. group_of 1 (match_at_start name (trim c))) (split_top_level body))

-- `parseIndexColumns`.
unfoldable pub parse_index_columns : Text → List Text
unfolding columns_in paren_body
parse_index_columns part = columns_in (paren_body part)

abbrev index_def : Text → List Text → Bool → IndexDef
index_def name columns unique = record { name = name; columns = columns; unique = unique }

-- `parseIndexDefinition`.
unfoldable pub parse_index_definition : Text → Option IndexDef
unfolding primary_pattern unique_pattern plain_pattern match_at_start parse_index_columns
parse_index_definition part =
    if is_some (match_at_start primary_pattern part)
    then some (index_def (codes "PRIMARY") (parse_index_columns part) true)
    else elim (match_at_start unique_pattern part) [
      | some t ↦
          some (index_def (text_or_empty (captured 1 t.groups)) (parse_index_columns part) true)
      | none ↦ elim (match_at_start plain_pattern part) [
        | some t ↦
            some (index_def (text_or_empty (captured 1 t.groups)) (parse_index_columns part) false)
        | none ↦ none
      ]
    ]

pub record ParsedColumn : Type 0 where
  pub column : ColumnDef
  pub inline_primary_key : Bool

-- The column, from its name, the rest of the definition and the match of the type.
column_of : Text → Text → Option Cursor → Option ParsedColumn
unfolding inline_key_pattern not_null_pattern test normalize_type
column_of column rest none = none
column_of column rest (some t) =
    let inline = test inline_key_pattern rest in
    some (record {
      column = record {
        name = column;
        type = normalize_type (text_or_empty (captured 1 t.groups));
        nullable = not (test not_null_pattern rest) && not inline;
        raw = b'`' ∷ (column ++ (b'`' ∷ 32 ∷ rest));
      };
      inline_primary_key = inline;
    })

-- `parseColumnDefinition`.
unfoldable pub parse_column_definition : Text → Option ParsedColumn
unfolding column_of column_pattern type_pattern match_at_start trim
parse_column_definition part = elim (match_at_start column_pattern part) [
  | none ↦ none
  | some t ↦
      let rest = trim (text_or_empty (captured 2 t.groups)) in
      column_of (text_or_empty (captured 1 t.groups)) rest (match_at_start type_pattern rest)
]

abbrev push_index : IndexDef → TableDef → TableDef
push_index index table = record table { indexes = table.indexes ++ (index ∷ []) }

-- A column, and the primary key that it declares.
push_column : ParsedColumn → TableDef → TableDef
push_column p table =
    let with_column = record table { columns = table.columns ++ (p.column ∷ []) } in
    if p.inline_primary_key
    then push_index (index_def (codes "PRIMARY") (p.column.name ∷ []) true) with_column
    else with_column

-- One part of the body.
unfoldable pub add_part : TableDef → Text → TableDef
unfolding push_column parse_index_definition parse_column_definition unsupported_pattern
    match_at_start trim
add_part table part =
    let trimmed = trim part in
    if is_empty trimmed then table else elim (parse_index_definition trimmed) [
      | some index ↦ push_index index table
      | none ↦
          if is_some (match_at_start unsupported_pattern trimmed)
          then table
          else elim (parse_column_definition trimmed) [
            | some p ↦ push_column p table
            | none ↦ table
          ]
    ]

unfoldable pub add_parts : TableDef → List Text → TableDef
unfolding add_part
add_parts table [] = table
add_parts table (part ∷ parts) = add_parts (add_part table part) parts

table_from : Text → Text → Option Text → Option TableDef
unfolding add_parts split_top_level trim
table_from statement table none = none
table_from statement table (some body) = some (
    add_parts
      (record {
        name = table;
        columns = [];
        indexes = [];
        raw_create_statement = some (trim statement ++ (b';' ∷ []));
      })
      (split_top_level body))

-- `parseCreateTable`: the header ends with the opening parenthesis of the body.
unfoldable pub parse_create_table : Text → Option TableDef
unfolding table_from header_pattern match_at_start close_paren
parse_create_table statement = elim (match_at_start header_pattern statement) [
  | none ↦ none
  | some t ↦ table_from statement (text_or_empty (captured 1 t.groups)) (close_paren 0 [] t.rest)
]

set_table : Option TableDef → Schema → Schema
unfolding map_set
set_table none schema = schema
set_table (some table) schema = map_set table.name table schema

unfoldable pub parse_statements : Schema → List Text → Schema
unfolding set_table parse_create_table
parse_statements schema [] = schema
parse_statements schema (statement ∷ rest) =
    parse_statements (set_table (parse_create_table statement) schema) rest

-- `parseDesiredSchema`.
unfoldable pub parse_desired_schema : Text → Schema
unfolding parse_statements split_statements strip_to_spaces
parse_desired_schema sql = parse_statements [] (split_statements (strip_to_spaces sql))
