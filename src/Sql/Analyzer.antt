-- ===== src/Sql/Analyzer.antt =====
-- The classification of statements: apps/api/src/apply/sql-analyzer.ts.
use dbflow.Common.{
  ℕ, Bool, true, false, ◌&&◌, ◌||◌, List, map, Option, none, some, if◌then◌else◌, is_some,
}
use dbflow.Sql.Regex.{
  Text, Regex, word_edge, at_end, set, alt, is_word, trim, match_at_start, test, captured, Cursor,
}
use dbflow.Sql.Patterns.{◌>>>◌, lit, space, spaces?, spaces, maybe, many, quote, name}
use dbflow.Sql.Split.{split_sql_statements}

pub data StatementKind : Type 0 where
  select insert update delete create_table drop_table truncate alter_table : StatementKind
  create_database drop_database create_index drop_index other : StatementKind

pub record AnalyzedStatement : Type 0 where
  pub raw : Text
  pub line : ℕ
  pub kind : StatementKind
  pub table : Option Text
  pub is_ddl : Bool
  pub has_where : Bool
  pub alter_drop_column : Bool
  pub alter_add_column : Bool
  pub alter_drop_index : Bool

-- `isDdlKind`, by the set `DDL_KINDS`.
unfoldable pub is_ddl_kind : StatementKind → Bool
is_ddl_kind StatementKind.create_table = true
is_ddl_kind StatementKind.drop_table = true
is_ddl_kind StatementKind.truncate = true
is_ddl_kind StatementKind.alter_table = true
is_ddl_kind StatementKind.create_database = true
is_ddl_kind StatementKind.drop_database = true
is_ddl_kind StatementKind.create_index = true
is_ddl_kind StatementKind.drop_index = true
is_ddl_kind _ = false

-- The patterns of `analyzeStatement`, in its order.
abbrev edge_word : Regex → Regex
edge_word r = word_edge >>> r >>> word_edge

where_pattern : Regex
where_pattern = edge_word (lit "WHERE")

drop_database_pattern : Regex
drop_database_pattern = lit "DROP" >>> spaces >>> lit "DATABASE"

create_database_pattern : Regex
create_database_pattern = lit "CREATE" >>> spaces >>> lit "DATABASE"

drop_table_pattern : Regex
drop_table_pattern =
    lit "DROP"
    >>> spaces
    >>> lit "TABLE"
    >>> spaces
    >>> maybe (lit "IF" >>> spaces >>> lit "EXISTS" >>> spaces)
    >>> name

truncate_pattern : Regex
truncate_pattern = lit "TRUNCATE" >>> spaces >>> maybe (lit "TABLE" >>> spaces) >>> name

create_table_pattern : Regex
create_table_pattern =
    lit "CREATE"
    >>> spaces
    >>> lit "TABLE"
    >>> spaces
    >>> maybe (lit "IF" >>> spaces >>> lit "NOT" >>> spaces >>> lit "EXISTS" >>> spaces)
    >>> name

alter_table_pattern : Regex
alter_table_pattern = lit "ALTER" >>> spaces >>> lit "TABLE" >>> spaces >>> name

plain_name : Regex
plain_name = quote >>> many (set is_word) >>> quote

drop_column_pattern : Regex
drop_column_pattern = word_edge >>> lit "DROP" >>> spaces >>> lit "COLUMN" >>> word_edge

drop_last_pattern : Regex
unfolding plain_name
drop_last_pattern = word_edge >>> lit "DROP" >>> spaces >>> plain_name >>> spaces? >>> at_end

add_column_pattern : Regex
unfolding plain_name
add_column_pattern =
    word_edge >>> lit "ADD" >>> spaces >>> alt (lit "COLUMN" >>> word_edge) (plain_name >>> space)

drop_key_pattern : Regex
drop_key_pattern =
    word_edge >>> lit "DROP" >>> spaces >>> alt (lit "INDEX") (lit "KEY") >>> word_edge

drop_index_pattern : Regex
drop_index_pattern = lit "DROP" >>> spaces >>> lit "INDEX"

create_index_pattern : Regex
create_index_pattern = lit "CREATE" >>> spaces >>> maybe (lit "UNIQUE" >>> spaces) >>> lit "INDEX"

update_pattern : Regex
update_pattern = lit "UPDATE" >>> spaces >>> name

delete_pattern : Regex
delete_pattern = lit "DELETE" >>> spaces >>> lit "FROM" >>> spaces >>> name

insert_pattern : Regex
insert_pattern =
    lit "INSERT" >>> spaces >>> maybe (lit "IGNORE" >>> spaces) >>> lit "INTO" >>> spaces >>> name

select_pattern : Regex
select_pattern = lit "SELECT" >>> word_edge

starts : Regex → Text → Bool
starts r s = is_some (match_at_start r s)

-- `m[1]` of a match at the start.
table_of : Option Cursor → Option Text
table_of none = none
table_of (some t) = captured 1 t.groups

-- The kind of a statement: the first pattern that matches at its start, with the table it names.
unfoldable pub classify : Text → StatementKind × Option Text
unfolding drop_database_pattern create_database_pattern drop_table_pattern truncate_pattern
    create_table_pattern alter_table_pattern drop_index_pattern create_index_pattern update_pattern
    delete_pattern insert_pattern select_pattern starts table_of match_at_start
classify s =
    if starts drop_database_pattern s
    then (StatementKind.drop_database, none)
    else if starts create_database_pattern s
    then (StatementKind.create_database, none)
    else if starts drop_table_pattern s
    then (StatementKind.drop_table, table_of (match_at_start drop_table_pattern s))
    else if starts truncate_pattern s
    then (StatementKind.truncate, table_of (match_at_start truncate_pattern s))
    else if starts create_table_pattern s
    then (StatementKind.create_table, table_of (match_at_start create_table_pattern s))
    else if starts alter_table_pattern s
    then (StatementKind.alter_table, table_of (match_at_start alter_table_pattern s))
    else if starts drop_index_pattern s
    then (StatementKind.drop_index, none)
    else if starts create_index_pattern s
    then (StatementKind.create_index, none)
    else if starts update_pattern s
    then (StatementKind.update, table_of (match_at_start update_pattern s))
    else if starts delete_pattern s
    then (StatementKind.delete, table_of (match_at_start delete_pattern s))
    else if starts insert_pattern s
    then (StatementKind.insert, table_of (match_at_start insert_pattern s))
    else if starts select_pattern s
    then (StatementKind.select, none)
    else (StatementKind.other, none)

abbrev is_alter : StatementKind → Bool
is_alter StatementKind.alter_table = true
is_alter _ = false

abbrev is_drop_index : StatementKind → Bool
is_drop_index StatementKind.drop_index = true
is_drop_index _ = false

-- `analyzeStatement`. Its branches set `isDdl` for the kinds of `DDL_KINDS`, and no other.
unfoldable pub analyze_statement : Text → ℕ → AnalyzedStatement
unfolding classify where_pattern drop_column_pattern drop_last_pattern add_column_pattern
    drop_key_pattern test is_ddl_kind trim
analyze_statement raw line =
    let s = trim raw in
    let (kind, table) = classify s in
    record {
      raw = s;
      line = line;
      kind = kind;
      table = table;
      is_ddl = is_ddl_kind kind;
      has_where = test where_pattern s;
      alter_drop_column = is_alter kind && (test drop_column_pattern s || test drop_last_pattern s);
      alter_add_column = is_alter kind && test add_column_pattern s;
      alter_drop_index = is_drop_index kind || (is_alter kind && test drop_key_pattern s);
    }

-- `analyzeSql`.
unfoldable pub analyze_sql : Text → List AnalyzedStatement
analyze_sql sql = map (λ s. analyze_statement s.raw s.line) (split_sql_statements sql)
