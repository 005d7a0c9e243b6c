-- ===== src/Apply/DryRun.antt =====
-- The preview of an apply: apps/api/src/apply/dry-run.service.ts. Only what it tells and what it
-- sends to the target is modelled; the impact text is left out.
use dbflow.Common.{
  ℕ, ◌+◌, String, Bool, true, false, not, ◌&&◌, List, [], ◌∷◌, Option, none, some, if◌then◌else◌,
  any,
}
use dbflow.Store.{
  Key, Actor, TargetDatabase, File, is_mysql, Db, not_found, conflict, internal, Message, Result,
  ok, err, ◌>>=◌, ◌>>◌, guard, or_throw,
}
use dbflow.ChangeRequest.Records.{find_cr}
use dbflow.Sql.Analyzer.{StatementKind, AnalyzedStatement, analyze_sql}
use dbflow.Apply.Policy.{assert_apply_permission, assert_env_match}
use dbflow.Apply.Server.{Server}
use dbflow.Apply.Gate.{find_target, files_of}

pub data DryRunMode : Type 0 where
  dml_tx_rollback ddl_static : DryRunMode

pub record DryRunFileResult : Type 0 where
  pub filename : String
  pub mode : DryRunMode
  pub affected_rows : Option ℕ
  pub destructive : Bool
  pub failed : Bool

destructive_kind : StatementKind → Bool → Bool → Bool
destructive_kind StatementKind.drop_table drops has_where = true
destructive_kind StatementKind.drop_database drops has_where = true
destructive_kind StatementKind.truncate drops has_where = true
destructive_kind StatementKind.alter_table drops has_where = drops
destructive_kind StatementKind.delete drops has_where = not has_where
destructive_kind StatementKind.update drops has_where = not has_where
destructive_kind _ drops has_where = false

-- `isDestructive`.
unfoldable pub is_destructive : AnalyzedStatement → Bool
unfolding destructive_kind
is_destructive s = destructive_kind s.kind s.alter_drop_column s.has_where

-- `continue` for SELECT and OTHER.
abbrev pub is_skipped : StatementKind → Bool
is_skipped StatementKind.select = true
is_skipped StatementKind.other = true
is_skipped _ = false

module _ (server : Server) where
  open server use {World, query, begin, roll_back, connects, decrypts}

  -- The loop over the statements: the world, and the affected rows unless one throws.
  unfoldable pub run_statements :
      TargetDatabase → List AnalyzedStatement → ℕ → World → World × Option ℕ
  run_statements target [] rows w = (w, some rows)
  run_statements target (s ∷ ss) rows w =
      let skipped = run_statements target ss rows w in
      let (after, result) = query w target s.raw in
      if is_skipped s.kind
      then skipped
      else elim result [ none ↦ (after, none) | some n ↦ run_statements target ss (rows + n) after ]

  dml_result : File → Bool → Option ℕ → DryRunFileResult
  dml_result file destructive rows = record {
    filename = file.filename;
    mode = DryRunMode.dml_tx_rollback;
    affected_rows = rows;
    destructive = destructive;
    failed = elim rows [ none ↦ true | some n ↦ false ];
  }

  -- The transaction, which is rolled back whatever happens.
  unfoldable pub run_dml :
      File
      → Bool
      → List AnalyzedStatement
      → TargetDatabase
      → World × Bool
      → World × DryRunFileResult
  unfolding dml_result
  run_dml file destructive stmts target (w, false) =
      (roll_back w target, dml_result file destructive none)
  run_dml file destructive stmts target (w, true) =
      let (after, rows) = run_statements target stmts 0 w in
      (roll_back after target, dml_result file destructive rows)

  -- `dryRunFile`: a file with DDL is never executed.
  unfoldable pub dry_run_file : File → TargetDatabase → World → World × DryRunFileResult
  unfolding run_dml
  dry_run_file file target w =
      let stmts = analyze_sql file.content in
      let destructive = any is_destructive stmts in
      if any (λ s. s.is_ddl) stmts
      then (
        w,
        record {
          filename = file.filename;
          mode = DryRunMode.ddl_static;
          affected_rows = none;
          destructive = destructive;
          failed = false;
        },
      )
      else run_dml file destructive stmts target (begin w target)

  unfoldable pub dry_run_files : List File → TargetDatabase → World → World × List DryRunFileResult
  dry_run_files [] target w = (w, [])
  dry_run_files (f ∷ fs) target w =
      let (after, r) = dry_run_file f target w in
      let (last, rs) = dry_run_files fs target after in (last, r ∷ rs)

  unfoldable pub dry_run_target : Db → Actor → Key → Key → Result TargetDatabase
  dry_run_target db actor cr_id target_id = do
    cr ← or_throw (find_cr cr_id db) (not_found Message.change_request_not_found)
    target ← or_throw (find_target target_id db) (not_found Message.target_not_found)
    assert_env_match cr.target_env target.env
    assert_apply_permission actor target.env cr.author_id
    guard (is_mysql target.db_type) (conflict Message.dry_run_mysql_only)
    ok target

  -- `dryRun`: the database of the API server is only read.
  unfoldable pub dry_run : Db → Actor → Key → Key → World → World × Result (List DryRunFileResult)
  unfolding dry_run_target
  dry_run db actor cr_id target_id w = elim (dry_run_target db actor cr_id target_id) [
    | err e ↦ (w, err e)
    | ok target ↦
        if decrypts target && connects w target
        then (let (after, rs) = dry_run_files (files_of cr_id db) target w in (after, ok rs))
        else (w, err internal)
  ]
