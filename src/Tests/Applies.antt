-- ===== src/Tests/Applies.antt =====
-- Examples of applies, rollbacks and previews.
use dbflow.Common.{true, ◌≡◌, refl, ap, ◌≢◌, ◌↔◌, inr, [], ◌∷◌, none, some, In, false, arith}
use dbflow.Store.{Status, Execution, ExecutionStatus, ExecutionKind, Db, ok, err, conflict, Message}
use dbflow.ChangeRequest.Records.{find_cr}
use dbflow.Sql.Analyzer.{AnalyzedStatement, StatementKind}
use dbflow.Sql.Regex.{codes}
use dbflow.Apply.Server.{Server}
use dbflow.Apply.Gate.{gate, files_of, find_target}
use dbflow.Apply.Admission.{IsAdmitted, gate_iff}
use dbflow.Apply.Run.{start_execution, apply_ticket}
use dbflow.Apply.Rollback.{Plan, run_rollback}
use dbflow.Apply.Running.{
  IsExclusive, Executions, start_execution_iff, Executions-IsExclusive, run_rollback_stuck,
}
use dbflow.Apply.Interleaving.{apply_ticket-Executions, run_rollback-Executions}
use dbflow.Apply.Backup.{create_backup}
use dbflow.Apply.Ended.{IsEnded}
use dbflow.Apply.Outcome.{HasRun, apply_ticket-IsEnded}
use dbflow.Apply.DryRun.{dry_run}
use dbflow.Apply.Preview.{IsTransactional, dry_run-same}
use dbflow.Tests.Fixtures.{
  restored_counts, approver, request, update_file, target, ctx, zone, db_with, ticket, server,
}

abbrev pub ready : Db
ready = db_with Status.final_approved none

gate_iff_example : (gate zone ctx ready approver 10 30 ≡ ok ticket) ↔ (
    (find_cr 10 ready ≡ some (request Status.final_approved))
    × (find_target 30 ready ≡ some target)
    × (files_of 10 ready ≡ update_file ∷ [])
    × IsAdmitted zone ctx ready approver ticket)
gate_iff_example = gate_iff zone ctx ready approver 10 30 ticket

abbrev update_statement : AnalyzedStatement
update_statement = record {
  raw = codes "UPDATE t SET a = 1 WHERE b";
  line = 1;
  kind = StatementKind.update;
  table = some (codes "t");
  is_ddl = false;
  has_where = true;
  alter_drop_column = false;
  alter_add_column = false;
  alter_drop_index = false;
}

abbrev started : Db
started = record ready {
  executions =
      record {
        id = 100;
        change_request_id = 10;
        target_database_id = 30;
        kind = ExecutionKind.apply;
        status = ExecutionStatus.running;
        started_at = some 1000;
        finished_at = none;
        triggered_by_id = 3;
        backup_id = none;
      }
      ∷ [];
}

started-ok : start_execution ctx ready 10 30 3 ≡ ok started
unfolding start_execution
started-ok = refl

start_execution_iff_example : ((after : Db) × (start_execution ctx started 10 30 3 ≡ ok after)) ↔ (
    (e : Execution)
    → In e started.executions
    → e.change_request_id ≡ 10
    → e.status ≢ ExecutionStatus.running)
start_execution_iff_example = start_execution_iff ctx started 10 30 3

apply_ticket-IsEnded_example :
    IsEnded
      (HasRun server ticket
        (0, [])
        (create_backup server ctx 5 (0, []) 10 target (update_file ∷ [])))
      ticket
      100
      ready
      (apply_ticket server ctx 5 approver ticket ready (0, [])).0
apply_ticket-IsEnded_example =
    apply_ticket-IsEnded server ctx 5 approver ticket ready started (0, [])
      (request Status.final_approved) refl refl (inr refl) refl started-ok

ready-IsExclusive : IsExclusive ready
ready-IsExclusive cr_id = omega arith

Executions-IsExclusive_example :
    IsExclusive (apply_ticket server ctx 5 approver ticket ready (0, [])).0
Executions-IsExclusive_example =
    Executions-IsExclusive ready (apply_ticket server ctx 5 approver ticket ready (0, [])).0
      ready-IsExclusive (apply_ticket-Executions server ctx approver 5 ticket ready (0, []))

apply_ticket-Executions_example :
    Executions ready (apply_ticket server ctx 5 approver ticket ready (0, [])).0
apply_ticket-Executions_example = apply_ticket-Executions server ctx approver 5 ticket ready (0, [])

-- No connection can be opened.
abbrev unreachable : Server
unreachable = record server { connects = λ w t. false }

abbrev plan : Plan
plan = record {
  execution = record {
    id = 90;
    change_request_id = 10;
    target_database_id = 30;
    kind = ExecutionKind.apply;
    status = ExecutionStatus.success;
    started_at = some 900;
    finished_at = some 901;
    triggered_by_id = 3;
    backup_id = some 91;
  };
  target = target;
  tables = [];
}

run_rollback_stuck_example :
    start_execution ctx (run_rollback unreachable ctx approver plan ready (0, [])).0 10 30 3
    ≡ err (conflict Message.already_running)
run_rollback_stuck_example =
    run_rollback_stuck unreachable ctx ctx approver plan ready (0, []) 30 3 refl

run_rollback-Executions_example :
    Executions ready (run_rollback server ctx approver plan ready (0, [])).0
run_rollback-Executions_example = run_rollback-Executions server ctx approver plan ready (0, [])

counts-IsTransactional : IsTransactional server
counts-IsTransactional = record {
  Open = λ w t w'. w'.1 ≡ w.0 ∷ w.1;
  begins = λ w t. refl;
  stays = λ w w' t content s from no_ddl sent h. h;
  undone = λ w w' t h. ap (restored_counts w'.0) h;
}

dry_run-same_example : (dry_run server ready approver 10 30 (7, [])).0 ≡ (7, [])
dry_run-same_example = dry_run-same server counts-IsTransactional ready approver 10 30 (7, [])
