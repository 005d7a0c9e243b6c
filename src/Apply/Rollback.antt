-- ===== src/Apply/Rollback.antt =====
-- Rolling an apply back: apps/api/src/apply/rollback.service.ts.
use dbflow.Common.{
  ℕ, suc, ◌==◌, ltb, Bool, true, false, ◌&&◌, ◌||◌, List, [], ◌∷◌, ◌++◌, Option, none, some,
  if◌then◌else◌, find, length,
}
use dbflow.Store.{
  Key, Actor, TargetDatabase, TableSnapshot, Execution, ExecutionStatus, ExecutionKind, is_apply,
  StepName, AuditAction, AuditOutcome, Context, Db, conflict, not_found, internal, Message, Result,
  ok, err, ◌>>=◌, ◌>>◌, guard, or_throw,
}
use dbflow.Audit.{record_log}
use dbflow.ChangeRequest.Records.{find_cr}
use dbflow.Apply.Policy.{assert_apply_permission}
use dbflow.Apply.Server.{Server}
use dbflow.Apply.Backup.{load_payload}
use dbflow.Apply.Gate.{find_target}
use dbflow.Apply.Run.{end_execution, add_step, execution_log, execution_detail, ExecutionDetail}

-- The outcome of one table. A `soft` failure is a table whose data was never captured.
pub data Restored : Type 0 where
  restored : Option ℕ → Restored
  soft hard : Restored

abbrev pub is_hard : Restored → Bool
is_hard Restored.hard = true
is_hard _ = false

abbrev pub step_status : Restored → ExecutionStatus
step_status (Restored.restored rows) = ExecutionStatus.success
step_status _ = ExecutionStatus.failed

abbrev pub step_rows : Restored → Option ℕ
step_rows (Restored.restored rows) = rows
step_rows _ = none

unfoldable pub new_rollback : Context → Execution → Key → Execution
new_rollback ctx e user = record {
  id = ctx.fresh 0;
  change_request_id = e.change_request_id;
  target_database_id = e.target_database_id;
  kind = ExecutionKind.rollback;
  status = ExecutionStatus.running;
  started_at = some ctx.now;
  finished_at = none;
  triggered_by_id = user;
  backup_id = e.backup_id;
}

pub record Plan : Type 0 where
  pub execution : Execution
  pub target : TargetDatabase
  pub tables : List TableSnapshot

unfoldable pub end_of : Bool → ExecutionStatus
end_of true = ExecutionStatus.failed
end_of false = ExecutionStatus.success

unfoldable pub outcome : Bool → AuditOutcome
outcome true = AuditOutcome.failure
outcome false = AuditOutcome.success

module _ (server : Server) where
  open server use {World, begin, delete_all, insert_rows, commit, roll_back, drop_table}

  -- The insert is left out where the snapshot has no rows.
  insert_snapshot : TableSnapshot → World → TargetDatabase → World × Bool
  insert_snapshot t w target =
      if ltb 0 (length t.rows) then insert_rows w target t.name t.columns t.rows else (w, true)

  -- A step of the transaction that throws rolls all back.
  roll_back_on : TargetDatabase → World × Bool → (World → World × Restored) → World × Restored
  roll_back_on target (w, true) next = next w
  roll_back_on target (w, false) next = (roll_back w target, Restored.hard)

  restore_data : TableSnapshot → World → TargetDatabase → World × Restored
  unfolding insert_snapshot roll_back_on
  restore_data t w target = roll_back_on target (begin w target) (λ w₁.
      roll_back_on target (delete_all w₁ target t.name) (λ w₂.
        roll_back_on target (insert_snapshot t w₂ target) (λ w₃.
          roll_back_on target (commit w₃ target)
            (λ w₄. (w₄, Restored.restored (some (length t.rows)))))))

  dropped : World × Bool → World × Restored
  dropped (w, true) = (w, Restored.restored none)
  dropped (w, false) = (w, Restored.hard)

  -- `restoreTable`.
  unfoldable pub restore_table : TableSnapshot → World → TargetDatabase → World × Restored
  unfolding restore_data dropped
  restore_table t w target =
      if t.existed_before
      then (if t.data_included then restore_data t w target else (w, Restored.soft))
      else dropped (drop_table w target t.name)

  -- The loop over the tables: a step for each, and whether one failed hard.
  unfoldable pub restore_each :
      Key → TargetDatabase → ℕ → List TableSnapshot → Db → World → Db × World × Bool
  restore_each id target order [] db w = (db, w, false)
  restore_each id target order (t ∷ ts) db w =
      let (after, r) = restore_table t w target in
      let (db', w', later) =
        restore_each id target (suc order) ts
          (add_step id (StepName.table t.name) order (step_status r) (step_rows r) db) after in
      (db', w', is_hard r || later)

  -- `rollback`, up to the loaded payload.
  unfoldable pub rollback_gate : Db → Actor → Key → Result Plan
  rollback_gate db actor execution_id = do
    e ←
        or_throw (find (λ e. e.id == execution_id) db.executions)
          (not_found Message.execution_not_found)
    guard (is_apply e.kind) (conflict Message.must_be_apply_execution)
    cr ← or_throw (find_cr e.change_request_id db) internal
    target ← or_throw (find_target e.target_database_id db) internal
    assert_apply_permission actor target.env cr.author_id
    backup_id ← or_throw e.backup_id (conflict Message.no_backup)
    tables ← or_throw (load_payload server db backup_id) internal
    ok (record { execution = e; target = target; tables = tables })

  -- The end of `rollback`, after the tables.
  unfoldable pub finish_rollback :
      Context → Actor → Key → Db × World × Bool → Db × World × Result ExecutionDetail
  unfolding end_of outcome
  finish_rollback ctx actor id (db, w, failure) =
      let after =
        record_log ctx (execution_log actor AuditAction.cr_rolled_back id (outcome failure))
          (end_execution ctx id (end_of failure) db) in
      (after, w, execution_detail after id)

  -- The tables are restored over one connection; without it the exception leaves the execution RUNNING.
  unfoldable pub run_rollback :
      Context → Actor → Plan → Db → World → Db × World × Result ExecutionDetail
  unfolding new_rollback finish_rollback
  run_rollback ctx actor p db w =
      let id = ctx.fresh 0 in
      let created = record db {
        executions = db.executions ++ (new_rollback ctx p.execution actor.user_id ∷ []);
      } in
      if server.decrypts p.target && server.connects w p.target
      then finish_rollback ctx actor id (restore_each id p.target 0 p.tables created w)
      else (created, w, err internal)

  -- `rollback`.
  unfoldable pub rollback : Context → Actor → Key → Db → World → Db × World × Result ExecutionDetail
  rollback ctx actor execution_id db w = elim (rollback_gate db actor execution_id) [
    | err e ↦ (db, w, err e)
    | ok p ↦ run_rollback ctx actor p db w
  ]
