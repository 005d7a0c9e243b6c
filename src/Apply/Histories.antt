-- ===== src/Apply/Histories.antt =====
-- The status histories under an apply, run alone.
use dbflow.Common.{
  ℕ, ◌==◌, ◌≡◌, refl, sym, ap, subst, ◌∙◌, inl, inr, List, [], ◌∷◌, Option, none, some, find,
  find-In, Bool-cases, Option-cases, arith,
}
use dbflow.Store.{
  Key, Actor, TargetEnv, same_env, Status, TargetDatabase, TableSnapshot, File, Execution,
  ExecutionStatus, StepName, AuditLog, Context, Db, Result, Result-cases, ok, err,
}
use dbflow.Store
use dbflow.Audit.{record_log}
use dbflow.ChangeRequest.StateMachine.{TransitionAction, get_next_status}
use dbflow.ChangeRequest.Records.{find_cr, set_status}
use dbflow.ChangeRequest.Trace.{IsTraced, SameRequests, SameRequests-IsTraced, set_status-IsTraced}
use dbflow.ApplySchedule.{Zone}
use dbflow.Apply.Server.{Server}
use dbflow.Apply.Backup.{create_backup}
use dbflow.Apply.Gate.{Ticket, gate}
use dbflow.Apply.Admission.{gate_iff}
use dbflow.Apply.Run.{
  start_execution, end_execution, add_step, link_backup, RunEnd, finalize_success,
  audit_apply_outcome, run_each, run_files, with_world, after_success, finish_run, after_backup,
  run_execution, after_gate, apply_ticket, apply,
}

audit-SameRequests :
    (ctx : Context) (actor : Actor) (id : Key) (db : Db)
    → SameRequests db (audit_apply_outcome ctx actor id db).0
unfolding audit_apply_outcome record_log
audit-SameRequests ctx actor id db = (ground arith, ground arith)

module _ (server : Server) where
  run_each-SameRequests :
      (id : Key) (target : TargetDatabase) (files : List File) (db : Db) (w : server.World)
      → SameRequests db (run_each server id target files db w).0
  unfolding run_each add_step
  run_each-SameRequests id target [] db w = (refl, refl)
  run_each-SameRequests id target (f ∷ fs) db w =
      let w' = (server.query w target f.content).0 in
      elim (Option-cases (server.query w target f.content).1) [
        | inl none' ↦ (ground arith, ground arith)
        | inr (rows, ran) ↦
            let rest =
              run_each-SameRequests id target fs
                (add_step id (StepName.file f.filename) f.order ExecutionStatus.success (some rows)
                  db)
                w' in
            (ground arith, ground arith)
      ]

  run_files-SameRequests :
      (id : Key) (target : TargetDatabase) (files : List File) (db : Db) (w : server.World)
      → SameRequests db (run_files server id target files db w).0
  unfolding run_files add_step
  run_files-SameRequests id target files db w =
      let ran = run_each-SameRequests id target files db w in (ground arith, ground arith)

-- The histories are paths, and the copy of the change request is its row.
abbrev IsFresh : Store.ChangeRequest → Db → Type 0
IsFresh cr db = IsTraced db × (find_cr cr.id db ≡ some cr)

IsFresh-SameRequests :
    (cr : Store.ChangeRequest) (db after : Db)
    → SameRequests db after
    → IsFresh cr db
    → IsFresh cr after
IsFresh-SameRequests cr db after same (traced, found) = (
  SameRequests-IsTraced db after same traced,
  ap (find (λ (c : Store.ChangeRequest). c.id == cr.id)) same.0 ∙ found,
)

finalize_success-IsTraced :
    (ctx : Context) (id : Key) (cr : Store.ChangeRequest) (env : TargetEnv) (user : Key)
    (db done : Db)
    → IsFresh cr db
    → finalize_success ctx id cr env user db ≡ ok done
    → IsTraced done
unfolding finalize_success end_execution
finalize_success-IsTraced ctx id cr env user db done fresh e =
    let ended = end_execution ctx id ExecutionStatus.success db in
    let (traced, found) = IsFresh-SameRequests cr db ended (refl, refl) fresh in
    elim (Bool-cases (same_env env TargetEnv.dev)) [
      | inl here ↦ let same : ended ≡ done = ground arith in subst IsTraced same traced
      | inr outside ↦ elim (Result-cases (get_next_status cr.status TransitionAction.apply)) [
        | inr (f, refused) ↦ absurd (ground arith)
        | inl (to, next) ↦
            let same : set_status ctx cr.id cr.status to user (some "적용 완료") ended ≡ done =
              ground arith in
            subst IsTraced same (
              set_status-IsTraced ctx cr.id cr TransitionAction.apply to user (some "적용 완료") ended
                found next traced)
      ]
    ]

module _ (server : Server) (ctx : Context) (actor : Actor) where
  audited-IsTraced :
      (id : Key) (db : Db) (w : server.World)
      → IsTraced db
      → IsTraced (with_world server w (audit_apply_outcome ctx actor id db)).0
  unfolding with_world
  audited-IsTraced id db w traced =
      SameRequests-IsTraced db (audit_apply_outcome ctx actor id db).0
        (audit-SameRequests ctx actor id db) traced

  finish_run-IsTraced :
      (id : Key) (cr : Store.ChangeRequest) (env : TargetEnv) (db : Db) (w : server.World)
      (end : RunEnd)
      → IsFresh cr db
      → IsTraced (finish_run server ctx actor id cr env (db, w, end)).0
  unfolding finish_run after_success with_world end_execution
  finish_run-IsTraced id cr env db w RunEnd.crashed (traced, found) = traced
  finish_run-IsTraced id cr env db w RunEnd.failed (traced, found) =
      audited-IsTraced id (end_execution ctx id ExecutionStatus.failed db) w (
        SameRequests-IsTraced db (end_execution ctx id ExecutionStatus.failed db) (refl, refl)
          traced)
  finish_run-IsTraced id cr env db w RunEnd.succeeded fresh =
      elim (Result-cases (finalize_success ctx id cr env actor.user_id db)) [
        | inr (f, e) ↦
            subst (λ r. IsTraced (after_success server ctx actor id w db r).0) (sym e) (fresh.0)
        | inl (done, e) ↦
            subst (λ r. IsTraced (after_success server ctx actor id w db r).0) (sym e)
              (audited-IsTraced id done w
                (finalize_success-IsTraced ctx id cr env actor.user_id db done fresh e))
      ]

  after_backup-IsTraced :
      (t : Ticket) (id : Key) (db : Db) (w : server.World) (b : Option Store.Backup)
      → IsFresh t.cr db
      → IsTraced (after_backup server ctx actor t id db w b).0
  unfolding after_backup add_step end_execution link_backup
  after_backup-IsTraced t id db w none (traced, found) =
      let stopped =
        end_execution ctx id ExecutionStatus.failed
          (add_step id StepName.backup 0 ExecutionStatus.failed none db) in
      audited-IsTraced id stopped w (SameRequests-IsTraced db stopped (refl, refl) traced)
  after_backup-IsTraced t id db w (some b) fresh =
      let linked = link_backup id b db in
      let (db', w', end) = run_files server id t.target t.files linked w in
      finish_run-IsTraced id t.cr t.target.env db' w' end (
        IsFresh-SameRequests t.cr linked db'
          (run_files-SameRequests server id t.target t.files linked w)
          (IsFresh-SameRequests t.cr db linked (refl, refl) fresh))

  apply_ticket-IsTraced :
      (limit : ℕ) (t : Ticket) (db : Db) (w : server.World)
      → IsFresh t.cr db
      → IsTraced (apply_ticket server ctx limit actor t db w).0
  unfolding apply_ticket run_execution after_gate start_execution
  apply_ticket-IsTraced limit t db w fresh =
      elim (Result-cases (start_execution ctx db t.cr.id t.target.id actor.user_id)) [
        | inr (f, e) ↦
            subst (λ r. IsTraced (after_gate server ctx limit actor db w t r).0) (sym e) (fresh.0)
        | inl (started, e) ↦
            subst (λ r. IsTraced (after_gate server ctx limit actor db w t r).0) (sym e)
              (after_backup-IsTraced t (ctx.fresh 0) started w
                (create_backup server ctx limit w t.cr.id t.target t.files)
                (IsFresh-SameRequests t.cr db started (ground arith, ground arith) fresh))
      ]

  pub apply-IsTraced :
      (zone : Zone) (limit : ℕ) (cr_id target_id : Key) (db : Db) (w : server.World)
      → IsTraced db
      → IsTraced (apply server zone ctx limit actor cr_id target_id db w).0
  unfolding apply
  apply-IsTraced zone limit cr_id target_id db w traced =
      elim (Result-cases (gate zone ctx db actor cr_id target_id)) [
        | inr (f, e) ↦ rw (e, apply) traced
        | inl (t, e) ↦
            let (found, at, files, a) = (gate_iff zone ctx db actor cr_id target_id t).0 e in
            let (m, key) =
              find-In (λ (c : Store.ChangeRequest). c.id == cr_id) db.change_requests t.cr found in
            let same : cr_id ≡ t.cr.id = ground arith in
            rw (e, apply)
              (apply_ticket-IsTraced limit t db w
                (traced, subst (λ k. find_cr k db ≡ some t.cr) same found))
      ]
