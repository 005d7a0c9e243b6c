-- ===== src/Tests/Schemas.antt =====
-- Examples of the comparison of schemas.
use dbflow.Common.{length, ◌≡◌, ◌≢◌, ◌↔◌, refl, true, false, [], ◌∷◌, ◌++◌, none, some, In}
use dbflow.Store.{Text, TargetEnv, Status, Db, ok}
use dbflow.Sql.Regex.{codes}
use dbflow.SchemaDiff.Model.{ColumnDef, IndexDef, TableDef, Schema, DiffItem}
use dbflow.SchemaDiff.Edits.{Edit, has_name, edits, revise_one, last_named}
use dbflow.SchemaDiff.Engine.{column_edits, index_edits, column_item, column_differs, diff_schemas}
use dbflow.SchemaDiff.Effects.{apply_edits}
use dbflow.SchemaDiff.Indexes.{index_name, has_index, named_indexes}
use dbflow.SchemaDiff.Convergence.{column_name, IsSameColumn, column_at, table_edits-converge}
use dbflow.SchemaDiff.Settled.{IsSatisfied, diff_schemas-eq-nil_iff}
use dbflow.SchemaDiff.Destructive.{IsDroppedColumn, diff_schemas-destructive_iff}
use dbflow.TargetDatabases.{get_entity_for_actor, target_visible}
use dbflow.ChangeRequest.Submit
use dbflow.ChangeRequest.Records.{assert_assignee_roles}
use dbflow.ChangeRequest.Submit.{new_cr}
use dbflow.ChangeRequest.Detail.{Detail, to_detail}
use dbflow.SchemaDiff.Service.{
  Introspection, ApplyInput, Computed, compare_input, compute_diff, apply_to_change_request,
}
use dbflow.SchemaDiff.Bundle.{MayTarget, IsBundle, apply_to_change_request-IsBundle}
use dbflow.Tests.Fixtures.{ctx, approver, db_with}

abbrev column : Text → Text → ColumnDef
column name type = record { name = name; type = type; nullable = false; raw = name ++ type }

abbrev index : Text → IndexDef
index name = record { name = name; columns = []; unique = false }

-- The desired table has a wider id and an email, and another index.
abbrev desired : TableDef
desired = record {
  name = codes "t";
  columns = column (codes "id") (codes "bigint") ∷ column (codes "email") (codes "text") ∷ [];
  indexes = index (codes "i") ∷ [];
  raw_create_statement = none;
}

abbrev current : TableDef
current = record {
  name = codes "t";
  columns = column (codes "id") (codes "int") ∷ column (codes "age") (codes "int") ∷ [];
  indexes = index (codes "j") ∷ [];
  raw_create_statement = none;
}

edits_of_table : length (column_edits desired current) ≡ 3
unfolding column_edits edits revise_one last_named column_differs
edits_of_table = refl

table_edits-converge_example :
    ((key : Text)
      → IsSameColumn
          (column_at key desired.columns)
          (column_at key (apply_edits column_name (column_edits desired current) current.columns)))
    × ((key : Text)
        → has_name index_name key
            (apply_edits index_name (index_edits desired current) (named_indexes current.indexes))
          ≡ has_index key desired.indexes)
table_edits-converge_example = table_edits-converge desired current (refl, (refl, tt))

abbrev schema : TableDef → Schema
schema table = (codes "t", table) ∷ []

diff_schemas-eq-nil_iff_example :
    (diff_schemas (schema desired) (schema current) ≡ [])
    ↔ IsSatisfied (schema desired) (schema current)
diff_schemas-eq-nil_iff_example =
    diff_schemas-eq-nil_iff (schema desired) (schema current) ((refl, (refl, tt)), tt)

abbrev dropped : DiffItem
dropped = column_item (codes "t") (Edit.drop (codes "age"))

diff_schemas-destructive_iff_example :
    (In dropped (diff_schemas (schema desired) (schema current)) × (dropped.destructive ≡ true))
    ↔ IsDroppedColumn (schema desired) (schema current) dropped
diff_schemas-destructive_iff_example =
    diff_schemas-destructive_iff (schema desired) (schema current) dropped

abbrev db : Db
db = db_with Status.draft none

-- A target without tables, and one table desired.
abbrev live : Introspection
live t = some ([], [])

abbrev input : ApplyInput
input = record {
  target_database_id = 30;
  desired_schema_sql = codes "CREATE TABLE t (a INT);";
  title = "t";
  description = "d";
}

abbrev after : Db
after = (apply_to_change_request live ctx db approver input).0

abbrev made : Submit.CreateDto
made = record {
  title = "t";
  description = "d";
  target_env = TargetEnv.staging;
  files = [];
  reviewer_id = none;
  approver_ids = none;
}

abbrev detail : Detail
detail = to_detail after (new_cr ctx approver made) none [] []

bundled : apply_to_change_request live ctx db approver input ≡ (after, ok detail)
unfolding apply_to_change_request get_entity_for_actor target_visible Submit.create
    assert_assignee_roles
bundled = refl

apply_to_change_request-IsBundle_example :
    (computed : Computed) × (compute_diff live db approver (compare_input input) ≡ ok computed)
    × (computed.diff ≢ [])
    × In computed.target db.targets
    × MayTarget approver computed.target.env
    × IsBundle db approver computed after
apply_to_change_request-IsBundle_example =
    apply_to_change_request-IsBundle live ctx db approver input after detail bundled
