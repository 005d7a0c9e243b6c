-- ===== src/SchemaDiff/Introspector.antt =====
-- The schema of a live database: apps/api/src/schema-diff/schema-introspector.ts. The rows of
-- `information_schema` are what the server answers.
use dbflow.Common.{
  ℕ, zero, ◌==◌, Bool, List, [], ◌∷◌, ◌++◌, Option, none, some, update_where, same_text,
}
use dbflow.Store.{Text}
use dbflow.SchemaDiff.Model.{
  ColumnDef, IndexDef, TableDef, Schema, map_get, map_set, normalize_type,
}

pub record ColumnRow : Type 0 where
  pub table_name : Text
  pub column_name : Text
  pub column_type : Text
  -- `IS_NULLABLE === 'YES'`.
  pub is_nullable : Bool

pub record IndexRow : Type 0 where
  pub table_name : Text
  pub index_name : Text
  pub non_unique : ℕ
  pub column_name : Text

abbrev pub empty_table : Text → TableDef
empty_table name = record { name = name; columns = []; indexes = []; raw_create_statement = none }

abbrev table_or_empty : Text → Option TableDef → TableDef
table_or_empty name none = empty_table name
table_or_empty name (some table) = table

-- `tableOf(name)`, then a change of that table in place.
unfoldable pub with_table : Text → (TableDef → TableDef) → Schema → Schema
unfolding map_set
with_table name change schema =
    map_set name (change (table_or_empty name (map_get name schema))) schema

abbrev column_of_row : ColumnRow → ColumnDef
column_of_row row = record {
  name = row.column_name;
  type = normalize_type row.column_type;
  nullable = row.is_nullable;
  raw = row.column_type;
}

-- The loop over the column rows.
unfoldable pub add_columns : List ColumnRow → Schema → Schema
unfolding with_table
add_columns [] schema = schema
add_columns (row ∷ rows) schema = add_columns rows (
    with_table row.table_name
      (λ table. record table { columns = table.columns ++ (column_of_row row ∷ []) }) schema)

-- The key of `indexAccumulator`.
abbrev pub index_key : IndexRow → Text
index_key row = row.table_name ++ (b'.' ∷ row.index_name)

-- `indexAccumulator`: for each key the table and the name of the index that it refers to.
abbrev pub Accumulator : Type 0
Accumulator = List (Text × (Text × Text))

abbrev new_index : IndexRow → IndexDef
new_index row = record {
  name = row.index_name;
  columns = row.column_name ∷ [];
  unique = row.non_unique == zero;
}

-- `index.columns.push(column)` on the index of that name.
abbrev push_column : Text → Text → TableDef → TableDef
push_column index column table = record table {
  indexes =
      update_where (λ (i : IndexDef). same_text i.name index)
        (λ i. record i { columns = i.columns ++ (column ∷ []) }) table.indexes;
}

-- One index row, by what its key refers to.
add_index : IndexRow → Option (Text × Text) → Accumulator → Schema → Accumulator × Schema
unfolding with_table map_set
add_index row none seen schema = (
  map_set (index_key row) (row.table_name, row.index_name) seen,
  with_table row.table_name
      (λ table. record table { indexes = table.indexes ++ (new_index row ∷ []) }) schema,
)
add_index row (some (table, index)) seen schema =
    (seen, with_table table (push_column index row.column_name) schema)

-- The loop over the index rows. The table of each row is there afterwards.
unfoldable pub add_indexes : List IndexRow → Accumulator → Schema → Schema
unfolding with_table add_index
add_indexes [] seen schema = schema
add_indexes (row ∷ rows) seen schema =
    let (seen', schema') =
      add_index row (map_get (index_key row) seen) seen
        (with_table row.table_name (λ t. t) schema) in
    add_indexes rows seen' schema'

-- `buildSchema`.
unfoldable pub build_schema : List ColumnRow → List IndexRow → Schema
unfolding add_columns add_indexes
build_schema columns indexes = add_indexes indexes [] (add_columns columns [])
