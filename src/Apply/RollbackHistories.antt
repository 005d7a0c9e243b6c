-- ===== src/Apply/RollbackHistories.antt =====
-- The status histories under a rollback, run alone.
use dbflow.Common.{ℕ, suc, ◌&&◌, refl, ◌∙◌, inl, inr, Bool, List, [], ◌∷◌, ◌++◌, Bool-cases, arith}
use dbflow.Store.{Key, Actor, TargetDatabase, TableSnapshot, StepName, Context, Db, Result-cases}
use dbflow.Audit.{record_log}
use dbflow.ChangeRequest.Trace.{IsTraced, SameRequests, SameRequests-IsTraced}
use dbflow.Apply.Server.{Server}
use dbflow.Apply.Run.{end_execution, add_step}
use dbflow.Apply.Rollback.{
  Plan, restore_table, step_status, step_rows, restore_each, rollback_gate, new_rollback,
  finish_rollback, run_rollback, rollback,
}

SameRequests-trans : (a b c : Db) → SameRequests a b → SameRequests b c → SameRequests a c
SameRequests-trans a b c (r, h) (r', h') = (r' ∙ r, h' ∙ h)

module _ (server : Server) (ctx : Context) (actor : Actor) where
  restore_each-SameRequests :
      (id : Key) (target : TargetDatabase) (order : ℕ) (ts : List TableSnapshot) (db : Db)
      (w : server.World)
      → SameRequests db (restore_each server id target order ts db w).0
  unfolding restore_each add_step
  restore_each-SameRequests id target order [] db w = (refl, refl)
  restore_each-SameRequests id target order (t ∷ ts) db w =
      let (after, r) = restore_table server t w target in
      let db' = add_step id (StepName.table t.name) order (step_status r) (step_rows r) db in
      SameRequests-trans db db' (restore_each server id target (suc order) ts db' after).0
        (refl, refl) (restore_each-SameRequests id target (suc order) ts db' after)

  finish_rollback-SameRequests :
      (id : Key) (db : Db) (w : server.World) (failure : Bool)
      → SameRequests db (finish_rollback server ctx actor id (db, w, failure)).0
  unfolding finish_rollback end_execution record_log
  finish_rollback-SameRequests id db w failure = (ground arith, ground arith)

  run_rollback-SameRequests :
      (p : Plan) (db : Db) (w : server.World)
      → SameRequests db (run_rollback server ctx actor p db w).0
  unfolding run_rollback
  run_rollback-SameRequests p db w =
      elim (Bool-cases (server.decrypts p.target && server.connects w p.target)) [
        | inr closed ↦ (ground arith, ground arith)
        | inl opened ↦
            let created = record db {
              executions = db.executions ++ (new_rollback ctx p.execution actor.user_id ∷ []);
            } in
            let (db', w', failure) =
              restore_each server (ctx.fresh 0) p.target 0 p.tables created w in
            let restored = restore_each-SameRequests (ctx.fresh 0) p.target 0 p.tables created w in
            let finished = finish_rollback-SameRequests (ctx.fresh 0) db' w' failure in
            (ground arith, ground arith)
      ]

  pub rollback-IsTraced :
      (execution_id : Key) (db : Db) (w : server.World)
      → IsTraced db
      → IsTraced (rollback server ctx actor execution_id db w).0
  unfolding rollback
  rollback-IsTraced execution_id db w traced =
      elim (Result-cases (rollback_gate server db actor execution_id)) [
        | inr (f, e) ↦ rw (e, rollback) traced
        | inl (p, e) ↦
            rw (e, rollback)
              (SameRequests-IsTraced db (run_rollback server ctx actor p db w).0
                (run_rollback-SameRequests p db w) traced)
      ]
