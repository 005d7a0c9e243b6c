-- ===== src/Apply/Backup.antt =====
-- Backups before an apply: apps/api/src/apply/backup.service.ts. The row limit is the environment's
-- `BACKUP_MAX_ROWS`, a parameter.
use mathlib.Core.List.{reverse}
use dbflow.Common.{
  same_text, ℕ, ◌==◌, ltb, Bool, true, false, not, ◌&&◌, List, [], ◌∷◌, ◌++◌, map, Option, none,
  some, if◌then◌else◌, any, find, filter,
}
use dbflow.Store.{
  Key, Text, TargetDatabase, File, TableSnapshot, BackupScope, BackupStatus, ExecutionKind,
  is_apply, Context, Db,
}
use dbflow.Store
use dbflow.Sql.Analyzer.{AnalyzedStatement, analyze_sql}
use dbflow.Apply.Server.{Server}

-- `tables.add(name)` of a `Set` that keeps the order of insertion.
unfoldable pub add_table : Option Text → List Text → List Text
add_table none tables = tables
add_table (some name) tables = if any (same_text name) tables then tables else tables ++ (name ∷ [])

unfoldable pub tables_of : List AnalyzedStatement → List Text → List Text
unfolding add_table
tables_of [] tables = tables
tables_of (stmt ∷ rest) tables = tables_of rest (add_table stmt.table tables)

affected_from : List File → List Text → List Text
affected_from [] tables = tables
affected_from (file ∷ files) tables =
    affected_from files (tables_of (analyze_sql file.content) tables)

-- `affectedTables` of sql-analyzer.ts.
unfoldable pub affected_tables : List File → List Text
unfolding affected_from tables_of
affected_tables files = affected_from files []

infixl 5 ◌>>=◌
abbrev ◌>>=◌ : {A B : Type 0} → Option A → (A → Option B) → Option B
none >>= k = none
some a >>= k = k a

module _ (server : Server) where
  open server use {World}

  -- A table that is there: its schema always, its data up to the limit.
  snapshot_existing : World → TargetDatabase → Text → ℕ → Option TableSnapshot
  snapshot_existing w target table limit = do
    schema ← server.create_statement w target table
    count ← server.row_count w target table
    data_rows ← (if ltb limit count then some ([], []) else server.select_all w target table)
    let (columns, rows) = data_rows
    some (record {
      name = table;
      existed_before = true;
      data_included = not (ltb limit count);
      row_count = count;
      columns = columns;
      rows = rows;
    })

  missing_table : Text → TableSnapshot
  missing_table table = record {
    name = table;
    existed_before = false;
    data_included = false;
    row_count = 0;
    columns = [];
    rows = [];
  }

  -- `snapshotTable`.
  unfoldable pub snapshot_table : World → TargetDatabase → Text → ℕ → Option TableSnapshot
  unfolding snapshot_existing missing_table
  snapshot_table w target table limit = do
    exists ← server.table_exists w target table
    if exists then snapshot_existing w target table limit else some (missing_table table)

  unfoldable pub snapshot_tables :
      World → TargetDatabase → List Text → ℕ → Option (List TableSnapshot)
  snapshot_tables w target [] limit = some []
  snapshot_tables w target (table ∷ tables) limit = do
    snap ← snapshot_table w target table limit
    rest ← snapshot_tables w target tables limit
    some (snap ∷ rest)

  -- `createBackup`: `none` is an exception. The reads leave the target as it is.
  unfoldable pub create_backup :
      Context → ℕ → World → Key → TargetDatabase → List File → Option Store.Backup
  create_backup ctx limit w cr_id target files = do
    opened ← (if server.decrypts target && server.connects w target then some tt else none)
    snaps ← snapshot_tables w target (affected_tables files) limit
    some (record {
      id = ctx.fresh 1;
      change_request_id = cr_id;
      target_database_id = target.id;
      scope =
          if any (λ s. s.data_included) snaps
          then BackupScope.schema_and_data
          else BackupScope.schema_only;
      status =
          if any (λ s. s.existed_before && not s.data_included) snaps
          then BackupStatus.partial
          else BackupStatus.success;
      payload = snaps;
    })

  revive : TableSnapshot → TableSnapshot
  revive s = record s { rows = map (map server.through_json) s.rows }

  -- `loadPayload`: `none` where the backup is not there.
  unfoldable pub load_payload : Db → Key → Option (List TableSnapshot)
  unfolding revive
  load_payload db id = do b ← find (λ b. b.id == id) db.backups; some (map revive b.payload)

-- `listBackups`: each backup with the execution that made it, the first APPLY or else the first.
first_execution : List Store.Execution → Option Key
first_execution [] = none
first_execution (e ∷ es) = some e.id

making_execution : Key → Db → Option Key
unfolding first_execution
making_execution id db =
    let users = filter (λ e. named e.backup_id) db.executions in
    elim (find (λ e. is_apply e.kind) users) [ some e ↦ some e.id | none ↦ first_execution users ]
  where
    named : Option Key → Bool
    named none = false
    named (some k) = k == id

-- Newest first; the rows stand in the order in which they were made.
unfoldable pub list_backups : Db → Key → List (Store.Backup × Option Key)
unfolding making_execution
list_backups db cr_id =
    map (λ b. (b, making_execution b.id db))
      (reverse (filter (λ b. b.change_request_id == cr_id) db.backups))
