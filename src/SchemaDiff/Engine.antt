-- ===== src/SchemaDiff/Engine.antt =====
-- The differences of two schemas as statements: apps/api/src/schema-diff/schema-diff.engine.ts.
use dbflow.Common.{
  Bool, true, false, not, ◌&&◌, ◌||◌, List, [], ◌∷◌, ◌++◌, map, Option, none, some, if◌then◌else◌,
  same_text, join,
}
use dbflow.Store.{Text}
use dbflow.Sql.Regex.{codes}
use dbflow.Sql.Split.{is_empty}
use dbflow.SchemaDiff.Model.{
  ColumnDef, IndexDef, TableDef, Schema, map_get, map_set, map_values, DiffKind, DiffItem,
}
use dbflow.SchemaDiff.Edits.{Edit, edits}

-- A name in backticks.
abbrev pub quoted : Text → Text
quoted name = b'`' ∷ (name ++ (b'`' ∷ []))

abbrev alter_table : Text → Text
alter_table table = codes "ALTER TABLE " ++ quoted table

-- `buildAddIndex`.
unfoldable pub build_add_index : Text → IndexDef → Text
unfolding join
build_add_index table index =
    alter_table table
    ++ (codes (if index.unique then " ADD UNIQUE " else " ADD INDEX ")
        ++ (quoted index.name
            ++ (codes " (" ++ (join (codes ", ") (map quoted index.columns) ++ codes ");"))))

-- `buildCreateStatement`.
unfoldable pub build_create_statement : TableDef → Text
unfolding join
build_create_statement table =
    codes "CREATE TABLE "
    ++ (quoted table.name
        ++ (codes " (\n"
            ++ (join (codes ",\n") (map (λ (c : ColumnDef). codes "  " ++ c.raw) table.columns)
                ++ codes "\n);")))

abbrev item : DiffKind → Text → Text → Bool → DiffItem
item kind table statement destructive = record {
  kind = kind;
  table = table;
  statement = statement;
  destructive = destructive;
}

differ_bool : Bool → Bool → Bool
differ_bool true b = not b
differ_bool false b = b

-- `ccol.type !== dcol.type || ccol.nullable !== dcol.nullable`.
unfoldable pub column_differs : ColumnDef → ColumnDef → Bool
unfolding differ_bool
column_differs current desired =
    not (same_text current.type desired.type) || differ_bool current.nullable desired.nullable

unfoldable pub column_item : Text → Edit ColumnDef → DiffItem
column_item table (Edit.add c) =
    item DiffKind.add_column table
      (alter_table table ++ (codes " ADD COLUMN " ++ (c.raw ++ codes ";"))) false
column_item table (Edit.modify c) =
    item DiffKind.modify_column table
      (alter_table table ++ (codes " MODIFY COLUMN " ++ (c.raw ++ codes ";"))) false
column_item table (Edit.drop name) =
    item DiffKind.drop_column table
      (alter_table table ++ (codes " DROP COLUMN " ++ (quoted name ++ codes ";"))) true

-- `diffColumns`.
unfoldable pub column_edits : TableDef → TableDef → List (Edit ColumnDef)
column_edits desired current = edits (λ c. c.name) column_differs desired.columns current.columns

unfoldable pub diff_columns : Text → TableDef → TableDef → List DiffItem
unfolding column_edits column_item
diff_columns table desired current = map (column_item table) (column_edits desired current)

abbrev pub is_named : IndexDef → Bool
is_named i = not (is_empty i.name) && not (same_text i.name (codes "PRIMARY"))

-- `new Map(indexes.filter(named).map((i) => [i.name, i]))`.
unfoldable pub by_name : List (Text × IndexDef) → List IndexDef → List (Text × IndexDef)
unfolding map_set
by_name seen [] = seen
by_name seen (i ∷ indexes) = by_name (if is_named i then map_set i.name i seen else seen) indexes

unfoldable pub index_item : Text → Edit IndexDef → DiffItem
unfolding build_add_index
index_item table (Edit.add i) = item DiffKind.add_index table (build_add_index table i) false
index_item table (Edit.modify i) = item DiffKind.add_index table (build_add_index table i) false
index_item table (Edit.drop name) =
    item DiffKind.drop_index table
      (alter_table table ++ (codes " DROP INDEX " ++ (quoted name ++ codes ";"))) false

-- `diffIndexes`. An index of the same name is never looked into.
unfoldable pub index_edits : TableDef → TableDef → List (Edit IndexDef)
unfolding by_name
index_edits desired current =
    edits (λ i. i.name) (λ _ _. false) (map_values (by_name [] desired.indexes))
      (map_values (by_name [] current.indexes))

unfoldable pub diff_indexes : Text → TableDef → TableDef → List DiffItem
unfolding index_edits index_item
diff_indexes table desired current = map (index_item table) (index_edits desired current)

abbrev pub or_build : TableDef → Text
or_build table = elim table.raw_create_statement [
  | some s ↦ s
  | none ↦ build_create_statement table
]

-- What becomes of one desired table.
unfoldable pub diff_table : Text → TableDef → Option TableDef → List DiffItem
unfolding diff_columns diff_indexes
diff_table name desired none = item DiffKind.create_table name (or_build desired) false ∷ []
diff_table name desired (some current) =
    diff_columns name desired current ++ diff_indexes name desired current

-- `diffSchemas`.
unfoldable pub diff_schemas : Schema → Schema → List DiffItem
unfolding diff_table
diff_schemas [] current = []
diff_schemas ((name, desired) ∷ rest) current =
    diff_table name desired (map_get name current) ++ diff_schemas rest current
