-- ===== src/Apply/Interleaving.antt =====
-- An apply and a rollback, as the steps that others may come between.
use dbflow.Common.{
  ℕ, suc, Bool, true, false, ◌&&◌, ◌≡◌, refl, List, [], ◌∷◌, ◌++◌, Option, none, some,
  if◌then◌else◌, arith,
}
use dbflow.Store.{
  Key, Actor, TargetEnv, TargetDatabase, TableSnapshot, Execution, ExecutionStatus, StepName,
  is_running, AuditAction, AuditLog, Context, Db, internal, Result, ok, err, ◌>>=◌,
}
use dbflow.Store
use dbflow.Audit.{record_log}
use dbflow.ChangeRequest.Records.{set_status}
use dbflow.Apply.Server.{Server}
use dbflow.Apply.Backup.{create_backup}
use dbflow.Apply.Gate.{Ticket}
use dbflow.Apply.Run.{
  start_execution, end_execution, add_step, link_backup, RunEnd, finalize_success,
  audit_apply_outcome, run_files, with_world, after_success, finish_run, after_backup,
  run_execution, after_gate, apply_ticket, ExecutionDetail, execution_log,
}
use dbflow.Apply.Rollback.{
  Plan, new_rollback, restore_table, restore_each, step_status, step_rows, end_of, outcome,
  finish_rollback, run_rollback,
}
use dbflow.Apply.Running.{ExecutionStep, Executions}
use dbflow.Apply.Frame.{record_log-SameRows, audit-SameRows, run_files-SameRows}

then_writes :
    (db mid after : Db)
    → Executions db mid
    → after.executions ≡ mid.executions
    → Executions db after
then_writes db mid after r same = Executions.next r (ExecutionStep.writes same)

then_ends :
    (ctx : Context) (id : Key) (status : ExecutionStatus) (db mid : Db)
    → Executions db mid
    → is_running status ≡ false
    → Executions db (end_execution ctx id status mid)
then_ends ctx id status db mid r over =
    Executions.next r (ExecutionStep.ends ctx id status over refl)

then_finalizes :
    (ctx : Context) (id : Key) (cr : Store.ChangeRequest) (env : TargetEnv) (user : Key)
    (db mid done : Db)
    → Executions db mid
    → finalize_success ctx id cr env user mid ≡ ok done
    → Executions db done
unfolding finalize_success set_status
then_finalizes ctx id cr env user db mid done r e =
    then_writes db (end_execution ctx id ExecutionStatus.success mid) done
      (then_ends ctx id ExecutionStatus.success db mid r refl) (ground arith)

module _ (server : Server) (ctx : Context) (actor : Actor) where
  then_audits :
      (id : Key) (db mid : Db) (w : server.World)
      → Executions db mid
      → Executions db (with_world server w (audit_apply_outcome ctx actor id mid)).0
  unfolding with_world
  then_audits id db mid w r =
      then_writes db mid (audit_apply_outcome ctx actor id mid).0 r
        (audit-SameRows ctx actor id mid).0

  then_succeeds :
      (id : Key) (cr : Store.ChangeRequest) (env : TargetEnv) (db mid : Db) (w : server.World)
      (done : Result Db)
      → Executions db mid
      → finalize_success ctx id cr env actor.user_id mid ≡ done
      → Executions db (after_success server ctx actor id w mid done).0
  unfolding after_success
  then_succeeds id cr env db mid w (err f) r e = r
  then_succeeds id cr env db mid w (ok done) r e =
      then_audits id db done w (then_finalizes ctx id cr env actor.user_id db mid done r e)

  then_finishes :
      (id : Key) (cr : Store.ChangeRequest) (env : TargetEnv) (db mid : Db) (w : server.World)
      (end : RunEnd)
      → Executions db mid
      → Executions db (finish_run server ctx actor id cr env (mid, w, end)).0
  unfolding finish_run
  then_finishes id cr env db mid w RunEnd.crashed r = r
  then_finishes id cr env db mid w RunEnd.failed r =
      then_audits id db (end_execution ctx id ExecutionStatus.failed mid) w
        (then_ends ctx id ExecutionStatus.failed db mid r refl)
  then_finishes id cr env db mid w RunEnd.succeeded r =
      then_succeeds id cr env db mid w (finalize_success ctx id cr env actor.user_id mid) r refl

  then_runs :
      (t : Ticket) (id : Key) (db mid : Db) (w : server.World) (b : Option Store.Backup)
      → Executions db mid
      → Executions db (after_backup server ctx actor t id mid w b).0
  unfolding after_backup add_step
  then_runs t id db mid w none r =
      let stepped = add_step id StepName.backup 0 ExecutionStatus.failed none mid in
      then_audits id db (end_execution ctx id ExecutionStatus.failed stepped) w (
        then_ends ctx id ExecutionStatus.failed db stepped (then_writes db mid stepped r refl) refl)
  then_runs t id db mid w (some b) r =
      let linked = link_backup id b mid in
      let (db', w', end) = run_files server id t.target t.files linked w in
      then_finishes id t.cr t.target.env db db' w' end (
        then_writes db linked db' (Executions.next r (ExecutionStep.links id b refl))
          (run_files-SameRows server id t.target t.files linked w).0)

  after_gate-Executions :
      (limit : ℕ) (t : Ticket) (db : Db) (w : server.World) (started : Result Db)
      → start_execution ctx db t.cr.id t.target.id actor.user_id ≡ started
      → Executions db (after_gate server ctx limit actor db w t started).0
  unfolding after_gate run_execution
  after_gate-Executions limit t db w (err f) e = Executions.here
  after_gate-Executions limit t db w (ok started) e =
      then_runs t (ctx.fresh 0) db started w
        (create_backup server ctx limit w t.cr.id t.target t.files)
        (Executions.next Executions.here
          (ExecutionStep.starts ctx t.cr.id t.target.id actor.user_id e))

  -- An apply, after its checks, is made of the steps that `ExecutionStep` lists, whatever its outcome.
  pub apply_ticket-Executions :
      (limit : ℕ) (t : Ticket) (db : Db) (w : server.World)
      → Executions db (apply_ticket server ctx limit actor t db w).0
  unfolding apply_ticket
  apply_ticket-Executions limit t db w =
      after_gate-Executions limit t db w (start_execution ctx db t.cr.id t.target.id actor.user_id)
        refl

  restore_each-executions :
      (id : Key) (target : TargetDatabase) (order : ℕ) (tables : List TableSnapshot) (db : Db)
      (w : server.World)
      → (restore_each server id target order tables db w).0.executions ≡ db.executions
  unfolding restore_each add_step
  restore_each-executions id target order [] db w = refl
  restore_each-executions id target order (t ∷ ts) db w =
      let (w', r) = restore_table server t w target in
      restore_each-executions id target (suc order) ts
        (add_step id (StepName.table t.name) order (step_status r) (step_rows r) db) w'

  if-Executions :
      (b : Bool) (db : Db) (x y : Db × server.World × Result ExecutionDetail)
      → Executions db x.0
      → Executions db y.0
      → Executions db (if b then x else y).0
  if-Executions true db x y r r' = r
  if-Executions false db x y r r' = r'

  end_of-over : (b : Bool) → is_running (end_of b) ≡ false
  unfolding end_of
  end_of-over true = refl
  end_of-over false = refl

  finish_rollback-Executions :
      (id : Key) (db mid : Db) (w : server.World) (failure : Bool)
      → Executions db mid
      → Executions db (finish_rollback server ctx actor id (mid, w, failure)).0
  unfolding finish_rollback
  finish_rollback-Executions id db mid w failure r =
      let ended = end_execution ctx id (end_of failure) mid in
      then_writes db ended
        (record_log ctx (execution_log actor AuditAction.cr_rolled_back id (outcome failure)) ended)
        (then_ends ctx id (end_of failure) db mid r (end_of-over failure))
        (record_log-SameRows ctx _ ended).0

  -- A rollback, after its checks, is made of the steps that `ExecutionStep` lists.
  pub run_rollback-Executions :
      (p : Plan) (db : Db) (w : server.World)
      → Executions db (run_rollback server ctx actor p db w).0
  unfolding run_rollback
  run_rollback-Executions p db w =
      let created = record db {
        executions = db.executions ++ (new_rollback ctx p.execution actor.user_id ∷ []);
      } in
      let begun =
        Executions.next Executions.here
          (ExecutionStep.rolls_back ctx p.execution actor.user_id refl) in
      let (db', w', failure) = restore_each server (ctx.fresh 0) p.target 0 p.tables created w in
      if-Executions (server.decrypts p.target && server.connects w p.target) db
        (finish_rollback server ctx actor (ctx.fresh 0) (db', w', failure))
        (created, w, err internal)
        (finish_rollback-Executions (ctx.fresh 0) db db' w' failure (
          then_writes db created db' begun
            (restore_each-executions (ctx.fresh 0) p.target 0 p.tables created w)))
        begun
