-- ===== src/SchemaDiff/Service.antt =====
-- The comparison of a desired schema with a live one: apps/api/src/schema-diff/schema-diff.service.ts.
use Prim.Native.String.{◌++◌}
use dbflow.Common.{
  ℕ, ◌==◌, map_index, zero, suc, ◌/◌, ◌%◌, String, ltb, Bool, true, false, not, List, [], ◌∷◌,
  Option, none, if◌then◌else◌, length,
}
use dbflow.Store.{
  Key, Text, SqlType, TargetDatabase, is_mysql, Actor, Db, Context, bad_request, conflict, internal,
  Message, Result, ok, err, ◌>>=◌, ◌>>◌, guard, or_throw,
}
use dbflow.TargetDatabases.{get_entity_for_actor}
use dbflow.ChangeRequest.Submit.{FileInput, CreateDto, create}
use dbflow.ChangeRequest.Detail.{Detail}
use dbflow.SchemaDiff.Model.{DiffKind, DiffItem, Schema, CurrentSnapshotSummary, summarize}
use dbflow.SchemaDiff.Engine.{diff_schemas}
use dbflow.SchemaDiff.Parser.{parse_desired_schema}
use dbflow.SchemaDiff.Introspector.{ColumnRow, IndexRow, build_schema}

-- `information_schema` of a target, over a connection of its own; `none` where that throws.
abbrev pub Introspection : Type 0
Introspection = TargetDatabase → Option (List ColumnRow × List IndexRow)

pub record PreviewInput : Type 0 where
  pub target_database_id : Key
  pub desired_schema_sql : Text

pub record Computed : Type 0 where
  pub target : TargetDatabase
  pub current : Schema
  pub diff : List DiffItem

abbrev is_nil {ℓ} : {A : Type ℓ} → List A → Bool
is_nil [] = true
is_nil (a ∷ rest) = false

-- `introspect`.
unfoldable pub introspect : Introspection → TargetDatabase → Result Schema
unfolding build_schema
introspect live target = do rows ← or_throw (live target) internal; ok (build_schema rows.0 rows.1)

-- `computeDiff`.
unfoldable pub compute_diff : Introspection → Db → Actor → PreviewInput → Result Computed
unfolding parse_desired_schema diff_schemas introspect
compute_diff live db actor dto = do
  target ← get_entity_for_actor db actor dto.target_database_id
  guard (is_mysql target.db_type) (conflict Message.schema_diff_mysql_only)
  let desired = parse_desired_schema dto.desired_schema_sql
  guard (not (is_nil desired)) (bad_request Message.no_create_table_found)
  current ← introspect live target
  ok (record { target = target; current = current; diff = diff_schemas desired current })

pub record SchemaDiffPreview : Type 0 where
  pub target_database_id : Key
  pub current_snapshot_summary : CurrentSnapshotSummary
  pub diff : List DiffItem
  pub has_changes : Bool

-- `preview`.
unfoldable pub preview : Introspection → Db → Actor → PreviewInput → Result SchemaDiffPreview
unfolding compute_diff summarize
preview live db actor dto = do
  computed ← compute_diff live db actor dto
  ok (record {
    target_database_id = computed.target.id;
    current_snapshot_summary = summarize computed.target.database computed.current;
    diff = computed.diff;
    has_changes = ltb 0 (length computed.diff);
  })

-- `kind.toLowerCase()`.
abbrev kind_name : DiffKind → String
kind_name DiffKind.create_table = "create_table"
kind_name DiffKind.add_column = "add_column"
kind_name DiffKind.drop_column = "drop_column"
kind_name DiffKind.modify_column = "modify_column"
kind_name DiffKind.add_index = "add_index"
kind_name DiffKind.drop_index = "drop_index"
kind_name DiffKind.drop_table = "drop_table"

digit : ℕ → String
digit n =
    if n == 0
    then "0"
    else if n == 1
    then "1"
    else if n == 2
    then "2"
    else if n == 3
    then "3"
    else if n == 4
    then "4"
    else if n == 5
    then "5"
    else if n == 6
    then "6"
    else if n == 7
    then "7"
    else if n == 8
    then "8"
    else "9"

-- The digits of a number above those that are written; a number has no more digits than rounds.
decimal_on : ℕ → ℕ → String → String
unfolding digit
decimal_on zero n shown = shown
decimal_on (suc rounds) n shown =
    let longer = decimal_on rounds (n / 10) (digit (n % 10) ++ shown) in
    if n == 0 then shown else longer

-- `String(n).padStart(3, '0')`, for a number from 1 on.
unfoldable pub padded : ℕ → String
unfolding decimal_on
padded n =
    let shown = decimal_on n n "" in
    if ltb n 10 then "00" ++ shown else if ltb n 100 then "0" ++ shown else shown

-- The files of a change request, one for each difference.
unfoldable pub diff_files : List DiffItem → List FileInput
unfolding padded
diff_files =
    map_index
      (λ index item. record {
        filename = padded (suc index) ++ ("_" ++ (kind_name item.kind ++ ".sql"));
        sql_type = SqlType.ddl;
        content = item.statement;
      })
      0

pub record ApplyInput : Type 0 where
  pub target_database_id : Key
  pub desired_schema_sql : Text
  pub title : String
  pub description : String

abbrev pub compare_input : ApplyInput → PreviewInput
compare_input dto = record {
  target_database_id = dto.target_database_id;
  desired_schema_sql = dto.desired_schema_sql;
}

abbrev pub diff_request : ApplyInput → Computed → CreateDto
diff_request dto computed = record {
  title = dto.title;
  description = dto.description;
  target_env = computed.target.env;
  files = diff_files computed.diff;
  reviewer_id = none;
  approver_ids = none;
}

-- The checks of `applyToChangeRequest`.
unfoldable pub diff_dto : Introspection → Db → Actor → ApplyInput → Result CreateDto
unfolding compute_diff diff_files
diff_dto live db actor dto = do
  computed ← compute_diff live db actor (compare_input dto)
  guard (not (is_nil computed.diff)) (conflict Message.schema_diff_no_changes)
  ok (diff_request dto computed)

-- `applyToChangeRequest`.
unfoldable pub apply_to_change_request :
    Introspection → Context → Db → Actor → ApplyInput → Db × Result Detail
unfolding diff_dto
apply_to_change_request live ctx db actor dto = elim (diff_dto live db actor dto) [
  | err failure ↦ (db, err failure)
  | ok request ↦ create ctx db actor request
]
