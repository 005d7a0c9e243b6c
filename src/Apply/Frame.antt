-- ===== src/Apply/Frame.antt =====
-- What the files of an apply, its steps and its audit leave alone.
use dbflow.Common.{
  ℕ, ◌==◌, true, ◌≡◌, refl, ◌≢◌, inl, inr, List, [], ◌∷◌, Option, some, find, Option-cases, arith,
}
use dbflow.Store.{
  Key, Actor, TargetDatabase, File, Execution, ExecutionStatus, StepName, AuditLog, Context, Db,
}
use dbflow.Audit.{record_log}
use dbflow.Apply.Server.{Server}
use dbflow.Apply.Run.{add_step, RunEnd, audit_apply_outcome, run_each, run_files}

abbrev pub find_execution : Key → Db → Option Execution
find_execution id db = find (λ e. e.id == id) db.executions

-- The parts of the database that the files, the backup and the audit leave alone.
abbrev pub SameRows : Db → Db → Type 0
SameRows db after =
    (after.executions ≡ db.executions) × (after.change_requests ≡ db.change_requests)

add_step-SameRows :
    (id : Key) (name : StepName) (order : ℕ) (status : ExecutionStatus) (rows : Option ℕ) (db : Db)
    → SameRows db (add_step id name order status rows db)
unfolding add_step
add_step-SameRows id name order status rows db = (refl, refl)

pub record_log-SameRows :
    (ctx : Context) (log : AuditLog) (db : Db) → SameRows db (record_log ctx log db)
unfolding record_log
record_log-SameRows ctx log db = (ground arith, ground arith)

pub audit-SameRows :
    (ctx : Context) (actor : Actor) (id : Key) (db : Db)
    → SameRows db (audit_apply_outcome ctx actor id db).0
unfolding audit_apply_outcome record_log
audit-SameRows ctx actor id db = (ground arith, ground arith)

module _ (server : Server) where
  run_each-SameRows :
      (id : Key) (target : TargetDatabase) (files : List File) (db : Db) (w : server.World)
      → SameRows db (run_each server id target files db w).0
  unfolding run_each add_step
  run_each-SameRows id target [] db w = (refl, refl)
  run_each-SameRows id target (f ∷ fs) db w =
      let w' = (server.query w target f.content).0 in
      elim (Option-cases (server.query w target f.content).1) [
        | inl none' ↦ (ground arith, ground arith)
        | inr (rows, ran) ↦
            let rest =
              run_each-SameRows id target fs
                (add_step id (StepName.file f.filename) f.order ExecutionStatus.success (some rows)
                  db)
                w' in
            (ground arith, ground arith)
      ]

  pub run_files-SameRows :
      (id : Key) (target : TargetDatabase) (files : List File) (db : Db) (w : server.World)
      → SameRows db (run_files server id target files db w).0
  unfolding run_files add_step
  run_files-SameRows id target files db w =
      let ran = run_each-SameRows id target files db w in (ground arith, ground arith)

  run_each-ends :
      (id : Key) (target : TargetDatabase) (files : List File) (db : Db) (w : server.World)
      → (run_each server id target files db w).2 ≢ RunEnd.crashed
  unfolding run_each
  run_each-ends id target [] db w h = absurd (ground arith)
  run_each-ends id target (f ∷ fs) db w h =
      let w' = (server.query w target f.content).0 in
      elim (Option-cases (server.query w target f.content).1) [
        | inl none' ↦ absurd (ground arith)
        | inr (rows, ran) ↦
            run_each-ends id target fs
              (add_step id (StepName.file f.filename) f.order ExecutionStatus.success (some rows)
                db)
              w' (ground arith)
      ]

  pub run_files-ends :
      (id : Key) (target : TargetDatabase) (files : List File) (db : Db) (w : server.World)
      → server.decrypts target ≡ true
      → (run_files server id target files db w).2 ≢ RunEnd.crashed
  unfolding run_files
  run_files-ends id target files db w readable h =
      let ends = run_each-ends id target files db w in absurd (ground arith)
