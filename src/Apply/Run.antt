-- ===== src/Apply/Run.antt =====
-- An apply after its checks: the lock and the RUNNING execution, the backup, the files and the end of
-- `apply` in apps/api/src/apply/apply.service.ts. Each part is one step on the database and the
-- target, so that attempts may interleave between the parts.
use mathlib.Core.List.{reverse}
use dbflow.Common.{
  ℕ, ◌==◌, Bool, not, ◌&&◌, List, [], ◌∷◌, ◌++◌, Option, none, some, if◌then◌else◌, find, any,
  filter, update_where, sort_asc,
}
use dbflow.Store.{
  Key, Actor, TargetEnv, Status, TargetDatabase, File, Execution, ExecutionStep, StepName,
  ExecutionStatus, ExecutionKind, is_running, is_success, AuditAction, AuditTargetType, AuditTarget,
  AuditOutcome, Context, Db, Failure, conflict, not_found, internal, Message, Result, ok, err,
  ◌>>=◌, ◌>>◌, guard, or_throw,
}
use dbflow.Store
use dbflow.Audit.{build_data, record_log}
use dbflow.ChangeRequest.StateMachine.{TransitionAction, get_next_status}
use dbflow.ChangeRequest.Records.{get_or_throw, set_status}
use dbflow.ApplySchedule.{Zone}
use dbflow.Apply.Server.{Server}
use dbflow.Apply.Backup.{create_backup}
use dbflow.Apply.Gate.{Ticket, gate}

unfoldable pub new_execution : Context → Key → Key → Key → Execution
new_execution ctx cr_id target_id user = record {
  id = ctx.fresh 0;
  change_request_id = cr_id;
  target_database_id = target_id;
  kind = ExecutionKind.apply;
  status = ExecutionStatus.running;
  started_at = some ctx.now;
  finished_at = none;
  triggered_by_id = user;
  backup_id = none;
}

-- A running execution of the change request.
abbrev pub is_running_of : Key → Execution → Bool
is_running_of cr_id e = (e.change_request_id == cr_id) && is_running e.status

-- `startExecution`: under the lock of the change request's row.
unfoldable pub start_execution : Context → Db → Key → Key → Key → Result Db
unfolding new_execution
start_execution ctx db cr_id target_id user = do
  guard (not (any (is_running_of cr_id) db.executions)) (conflict Message.already_running)
  ok (record db { executions = db.executions ++ (new_execution ctx cr_id target_id user ∷ []) })

abbrev pub write_end : Context → ExecutionStatus → Execution → Execution
write_end ctx status e = record e { status = status; finished_at = some ctx.now }

-- `execution.update({ status, finishedAt })`.
unfoldable pub end_execution : Context → Key → ExecutionStatus → Db → Db
end_execution ctx id status db = record db {
  executions = update_where (λ e. e.id == id) (write_end ctx status) db.executions;
}

-- `executionStep.create`.
unfoldable pub add_step : Key → StepName → ℕ → ExecutionStatus → Option ℕ → Db → Db
add_step id filename order status rows db = record db { steps = db.steps ++ (step ∷ []) }
  where
    step : ExecutionStep
    step = record {
      execution_id = id;
      filename = filename;
      order = order;
      status = status;
      rows_affected = rows;
    }

-- `execution.update({ backupId })`, with the backup's own row.
unfoldable pub link_backup : Key → Store.Backup → Db → Db
link_backup id b db = record db {
  backups = db.backups ++ (b ∷ []);
  executions =
      update_where (λ e. e.id == id) (λ e. record e { backup_id = some b.id }) db.executions;
}

-- How the run of the files ends; `crashed` is an exception that `apply` does not catch.
pub data RunEnd : Type 0 where
  succeeded failed crashed : RunEnd

-- `finalizeSuccess`, one transaction; the status is the ticket's copy.
unfoldable pub finalize_success :
    Context → Key → Store.ChangeRequest → TargetEnv → Key → Db → Result Db
finalize_success ctx id cr TargetEnv.dev user db =
    ok (end_execution ctx id ExecutionStatus.success db)
finalize_success ctx id cr _ user db = do
  to ← get_next_status cr.status TransitionAction.apply
  ok (
      set_status ctx cr.id cr.status to user (some "적용 완료")
        (end_execution ctx id ExecutionStatus.success db))

pub record ExecutionDetail : Type 0 where
  pub row : Execution
  pub steps : List ExecutionStep

abbrev outcome_of : ExecutionStatus → AuditOutcome
outcome_of ExecutionStatus.success = AuditOutcome.success
outcome_of _ = AuditOutcome.failure

-- `getExecutionDetail`.
unfoldable pub execution_detail : Db → Key → Result ExecutionDetail
execution_detail db id = do
  e ← or_throw (find (λ e. e.id == id) db.executions) internal
  ok (record {
    row = e;
    steps = sort_asc (λ s. s.order) (filter (λ s. s.execution_id == id) db.steps);
  })

abbrev pub execution_log : Actor → AuditAction → Key → AuditOutcome → Store.AuditLog
execution_log actor action id =
    build_data actor action AuditTargetType.execution (AuditTarget.row id)

-- `auditApplyOutcome`: reads the status that the execution ended with.
unfoldable pub audit_apply_outcome : Context → Actor → Key → Db → Db × Result ExecutionDetail
audit_apply_outcome ctx actor id db = elim (find (λ e. e.id == id) db.executions) [
  | none ↦ (db, err internal)
  | some e ↦
      let after =
        record_log ctx (execution_log actor AuditAction.cr_applied id (outcome_of e.status)) db in
      (after, execution_detail after id)
]

module _ (server : Server) where
  open server use {World, query, decrypts, connects}

  -- The loop over the files, which stops at the first failure.
  unfoldable pub run_each : Key → TargetDatabase → List File → Db → World → Db × World × RunEnd
  run_each id target [] db w = (db, w, RunEnd.succeeded)
  run_each id target (f ∷ fs) db w =
      let (after, result) = query w target f.content in
      elim result [
        | some rows ↦
            run_each id target fs
              (add_step id (StepName.file f.filename) f.order ExecutionStatus.success (some rows)
                db)
              after
        | none ↦ (
          add_step id (StepName.file f.filename) f.order ExecutionStatus.failed none db,
          after,
          RunEnd.failed,
        )
      ]

  -- `runFiles`: the credential is decrypted outside the `try`.
  unfoldable pub run_files : Key → TargetDatabase → List File → Db → World → Db × World × RunEnd
  run_files id target files db w =
      if decrypts target
      then (if connects w target
          then run_each id target files db w
          else (add_step id StepName.connection 0 ExecutionStatus.failed none db, w, RunEnd.failed))
      else (db, w, RunEnd.crashed)

  unfoldable pub with_world :
      World → Db × Result ExecutionDetail → Db × World × Result ExecutionDetail
  with_world w (db, r) = (db, w, r)

  -- The transaction of `finalizeSuccess` and the audit; an exception of it is the response.
  unfoldable pub after_success :
      Context → Actor → Key → World → Db → Result Db → Db × World × Result ExecutionDetail
  unfolding with_world
  after_success ctx actor id w db (err e) = (db, w, err e)
  after_success ctx actor id w db (ok done) = with_world w (audit_apply_outcome ctx actor id done)

  -- From the end of the files to the response.
  unfoldable pub finish_run :
      Context
      → Actor
      → Key
      → Store.ChangeRequest
      → TargetEnv
      → Db × World × RunEnd
      → Db × World × Result ExecutionDetail
  unfolding with_world after_success
  finish_run ctx actor id cr env (db, w, RunEnd.crashed) = (db, w, err internal)
  finish_run ctx actor id cr env (db, w, RunEnd.failed) =
      with_world w
        (audit_apply_outcome ctx actor id (end_execution ctx id ExecutionStatus.failed db))
  finish_run ctx actor id cr env (db, w, RunEnd.succeeded) =
      after_success ctx actor id w db (finalize_success ctx id cr env actor.user_id db)

  -- What follows the attempt at a backup.
  unfoldable pub after_backup :
      Context
      → Actor
      → Ticket
      → Key
      → Db
      → World
      → Option Store.Backup
      → Db × World × Result ExecutionDetail
  unfolding finish_run
  after_backup ctx actor t id db w none = with_world w (
      audit_apply_outcome ctx actor id (
        end_execution ctx id ExecutionStatus.failed
          (add_step id StepName.backup 0 ExecutionStatus.failed none db)))
  after_backup ctx actor t id db w (some b) =
      finish_run ctx actor id t.cr t.target.env
        (run_files id t.target t.files (link_backup id b db) w)

  -- `apply` after `startExecution`: the backup, the files, the end.
  unfoldable pub run_execution :
      Context → ℕ → Actor → Ticket → Key → Db → World → Db × World × Result ExecutionDetail
  unfolding after_backup
  run_execution ctx limit actor t id db w =
      after_backup ctx actor t id db w (create_backup server ctx limit w t.cr.id t.target t.files)

  -- `apply` after its checks.
  unfoldable pub after_gate :
      Context → ℕ → Actor → Db → World → Ticket → Result Db → Db × World × Result ExecutionDetail
  after_gate ctx limit actor db w t (err e) = (db, w, err e)
  after_gate ctx limit actor db w t (ok started) =
      run_execution ctx limit actor t (ctx.fresh 0) started w

  unfoldable pub apply_ticket :
      Context → ℕ → Actor → Ticket → Db → World → Db × World × Result ExecutionDetail
  unfolding after_gate
  apply_ticket ctx limit actor t db w =
      after_gate ctx limit actor db w t (start_execution ctx db t.cr.id t.target.id actor.user_id)

  -- `apply`.
  unfoldable pub apply :
      Zone → Context → ℕ → Actor → Key → Key → Db → World → Db × World × Result ExecutionDetail
  apply zone ctx limit actor cr_id target_id db w = elim (gate zone ctx db actor cr_id target_id) [
    | err e ↦ (db, w, err e)
    | ok t ↦ apply_ticket ctx limit actor t db w
  ]

  -- `listExecutions`; the rows stand in the order in which they were made.
  unfoldable pub list_executions : Db → Key → Result (List Execution)
  list_executions db cr_id = do
    cr ← get_or_throw db cr_id
    ok (reverse (filter (λ e. e.change_request_id == cr_id) db.executions))
