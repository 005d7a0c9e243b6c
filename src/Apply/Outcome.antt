-- ===== src/Apply/Outcome.antt =====
-- How an apply ends: its execution and the status of the change request afterwards.
use dbflow.Common.{
  ℕ, ◌==◌, true, ◌≡◌, refl, sym, ap, subst, ◌∙◌, ◌≢◌, inl, inr, [], ◌∷◌, ◌++◌, Option, none, some,
  find, find-append_none, find-update_where, List, ◌↔◌, Bool-cases, Option-cases, arith,
}
use dbflow.Store.{
  Key, Actor, TargetEnv, same_env, Status, TargetDatabase, File, Execution, ExecutionStatus,
  StepName, AuditAction, AuditLog, Context, Db, internal, Result, Result-cases, ok, err, ◌>>=◌,
  ◌>>◌, guard,
}
use dbflow.Store
use dbflow.ChangeRequest.Records.{find_cr}
use dbflow.Apply.Server.{Server}
use dbflow.Apply.Backup.{create_backup}
use dbflow.Apply.Gate.{Ticket}
use dbflow.Apply.Run.{
  new_execution, start_execution, add_step, link_backup, RunEnd, audit_apply_outcome, run_each,
  run_files, with_world, after_success, finish_run, after_backup, run_execution, after_gate,
  apply_ticket,
}
use dbflow.Apply.Frame.{
  find_execution, SameRows, audit-SameRows, run_files-SameRows, run_files-ends,
}
use dbflow.Apply.Ended.{
  AllRun, IsEnded, IsEnded-SameRows, end_execution-IsEnded, IsApproved, finalize_success-IsEnded,
}

-- The rows of the run: its execution and the change request.
abbrev HasRows : Ticket → Key → Db → Type 0
HasRows t id db =
    ((e : Execution) × (find_execution id db ≡ some e))
    × ((c : Store.ChangeRequest) × (find_cr t.cr.id db ≡ some c))

HasRows-SameRows :
    (t : Ticket) (id : Key) (db after : Db)
    → SameRows db after
    → HasRows t id db
    → HasRows t id after
HasRows-SameRows t id db after (same, same') ((e, found), (c, at)) = (
  (e, ap (find (λ (e : Execution). e.id == id)) same ∙ found),
  (c, ap (find (λ (c : Store.ChangeRequest). c.id == t.cr.id)) same' ∙ at),
)

IsEnded-from :
    (HasRun : Type 0) (t : Ticket) (id : Key) (db db' after : Db)
    → db'.change_requests ≡ db.change_requests
    → IsEnded HasRun t id db' after
    → IsEnded HasRun t id db after
IsEnded-from HasRun t id db db' after same (e, found, ended) = (
  e,
  found,
  elim ended [
    | inl (s, n, r) ↦ inl (s, n, r ∙ same)
    | inr (s, y, inl (d, r)) ↦ inr (s, y, inl (d, r ∙ same))
    | inr (s, y, inr h) ↦ inr (s, y, inr h)
  ],
)

-- The files end with success exactly when the connection opens and all run.
module _ (server : Server) (id : Key) (target : TargetDatabase) where
  run_each-AllRun :
      (files : List File) (db : Db) (w : server.World)
      → ((run_each server id target files db w).2 ≡ RunEnd.succeeded) ↔ AllRun server target files w
  unfolding run_each
  run_each-AllRun [] db w = (λ e. tt, λ h. refl)
  run_each-AllRun (f ∷ fs) db w =
      let w' = (server.query w target f.content).0 in
      elim (Option-cases (server.query w target f.content).1) [
        | inl failed ↦ (λ e. absurd (ground arith), λ (ran, rest). absurd (ran failed))
        | inr (rows, ran) ↦
            let db' =
              add_step id (StepName.file f.filename) f.order ExecutionStatus.success (some rows)
                db in
            let later = run_each-AllRun fs db' w' in
            let same : (run_each server id target (f ∷ fs) db w).2
                ≡ (run_each server id target fs db' w').2 =
              ground arith in
            (λ e. ((λ none'. cc), later.0 (sym same ∙ e)), λ (some', rest). same ∙ later.1 rest)
      ]

  run_files-AllRun :
      (files : List File) (db : Db) (w : server.World)
      → server.decrypts target ≡ true
      → ((run_files server id target files db w).2 ≡ RunEnd.succeeded)
        ↔ ((server.connects w target ≡ true) × AllRun server target files w)
  unfolding run_files
  run_files-AllRun files db w readable =
      let all = run_each-AllRun files db w in
      elim (Bool-cases (server.connects w target)) [
        | inl opened ↦
            let same : (run_files server id target files db w).2
                ≡ (run_each server id target files db w).2 =
              ground arith in
            (λ e. (opened, all.0 (sym same ∙ e)), λ (o, h). same ∙ all.1 h)
        | inr closed ↦ (λ e. absurd (ground arith), λ (o, h). absurd (cc))
      ]

-- The backup is made, the connection opens, and all files run.
abbrev pub HasRun : (server : Server) → Ticket → server.World → Option Store.Backup → Type 0
HasRun server t w b =
    (b ≢ none) × (server.connects w t.target ≡ true) × AllRun server t.target t.files w

module _ (server : Server) (ctx : Context) (actor : Actor) (t : Ticket) (id : Key)
    (approved : IsApproved t) where
  audited :
      (Ran : Type 0) (db mid : Db) (w : server.World)
      → IsEnded Ran t id db mid
      → IsEnded Ran t id db (with_world server w (audit_apply_outcome ctx actor id mid)).0
  unfolding with_world
  audited Ran db mid w h =
      IsEnded-SameRows Ran t id db mid (audit_apply_outcome ctx actor id mid).0
        (audit-SameRows ctx actor id mid) h

  finish_run-IsEnded :
      (Ran : Type 0) (db : Db) (w : server.World) (end : RunEnd)
      → (end ≡ RunEnd.succeeded) ↔ Ran
      → HasRows t id db
      → end ≢ RunEnd.crashed
      → IsEnded Ran t id db (finish_run server ctx actor id t.cr t.target.env (db, w, end)).0
  unfolding finish_run after_success with_world
  finish_run-IsEnded Ran db w RunEnd.crashed all rows h = absurd (h refl)
  finish_run-IsEnded Ran db w RunEnd.failed all ((e, found), at) h =
      audited Ran db _ w (end_execution-IsEnded Ran ctx t id db e (λ r. cc (all.1 r)) found)
  finish_run-IsEnded Ran db w RunEnd.succeeded all ((e, found), (c, at)) h =
      let (done, e', ended) =
        finalize_success-IsEnded Ran ctx t id actor.user_id db e c (all.0 refl) found at approved in
      subst (λ r. IsEnded Ran t id db (after_success server ctx actor id w db r).0) (sym e')
        (audited Ran db done w ended)

  link_backup-HasRows :
      (db : Db) (b : Store.Backup) → HasRows t id db → HasRows t id (link_backup id b db)
  unfolding link_backup
  link_backup-HasRows db b ((e, found), at) = (
    (
      record e { backup_id = some b.id },
      find-update_where (λ (e : Execution). e.id == id) (λ e. record e { backup_id = some b.id })
          (λ x. refl) db.executions e found,
    ),
    at,
  )

  after_backup-IsEnded :
      (db : Db) (w : server.World) (b : Option Store.Backup)
      → server.decrypts t.target ≡ true
      → HasRows t id db
      → IsEnded (HasRun server t w b) t id db (after_backup server ctx actor t id db w b).0
  unfolding after_backup add_step link_backup
  after_backup-IsEnded db w none readable ((e, found), at) = audited _ db _ w (
      end_execution-IsEnded _ ctx t id
        (add_step id StepName.backup 0 ExecutionStatus.failed none db) e
        (λ (made, opened, ran). made refl) found)
  after_backup-IsEnded db w (some b) readable rows =
      let linked = link_backup id b db in
      let (db', w', end) = run_files server id t.target t.files linked w in
      let same = run_files-SameRows server id t.target t.files linked w in
      let all = run_files-AllRun server id t.target t.files linked w readable in
      IsEnded-from (HasRun server t w (some b)) t id db db'
        (finish_run server ctx actor id t.cr t.target.env (db', w', end)).0 same.1
        (finish_run-IsEnded (HasRun server t w (some b)) db' w' end
          (
            λ e. ((λ none'. cc), (all.0 e).0, (all.0 e).1),
            λ (made, opened, ran). all.1 (opened, ran),
          )
          (HasRows-SameRows t id linked db' same (link_backup-HasRows db b rows))
          (run_files-ends server id t.target t.files linked w readable))

started-HasRows :
    (ctx : Context) (t : Ticket) (user : Key) (db started : Db) (c : Store.ChangeRequest)
    → find_execution (ctx.fresh 0) db ≡ none
    → find_cr t.cr.id db ≡ some c
    → start_execution ctx db t.cr.id t.target.id user ≡ ok started
    → HasRows t (ctx.fresh 0) started × (started.change_requests ≡ db.change_requests)
unfolding start_execution new_execution
started-HasRows ctx t user db started c unused at e =
    let row = new_execution ctx t.cr.id t.target.id user in
    let found =
      find-append_none (λ (e : Execution). e.id == ctx.fresh 0) db.executions (row ∷ []) unused in
    let list : started.executions ≡ db.executions ++ (row ∷ []) = ground arith in
    let same : started.change_requests ≡ db.change_requests = ground arith in
    (
      (
        (row, ap (find (λ (e : Execution). e.id == ctx.fresh 0)) list ∙ found ∙ ground arith),
        (c, ap (find (λ (c : Store.ChangeRequest). c.id == t.cr.id)) same ∙ at),
      ),
      same,
    )

-- An apply that starts, of a ticket that is FINAL_APPROVED or for a development database, ends its
-- execution. It ends with success exactly when the backup is made, the connection opens and each file in
-- turn runs without an error, and then the change request is APPLIED unless the target is a development
-- database; otherwise it ends with a failure, and the change requests are as they were. The change
-- request exists, the credential of the target is readable and the execution's key is unused.
pub apply_ticket-IsEnded :
    (server : Server) (ctx : Context) (limit : ℕ) (actor : Actor) (t : Ticket) (db started : Db)
    (w : server.World) (c : Store.ChangeRequest)
    → find_execution (ctx.fresh 0) db ≡ none
    → find_cr t.cr.id db ≡ some c
    → IsApproved t
    → server.decrypts t.target ≡ true
    → start_execution ctx db t.cr.id t.target.id actor.user_id ≡ ok started
    → IsEnded
        (HasRun server t w (create_backup server ctx limit w t.cr.id t.target t.files))
        t
        (ctx.fresh 0)
        db
        (apply_ticket server ctx limit actor t db w).0
unfolding apply_ticket run_execution after_gate
apply_ticket-IsEnded server ctx limit actor t db started w c unused at approved readable e =
    let (rows, same) = started-HasRows ctx t actor.user_id db started c unused at e in
    let Ran = HasRun server t w (create_backup server ctx limit w t.cr.id t.target t.files) in
    subst (λ r. IsEnded Ran t (ctx.fresh 0) db (after_gate server ctx limit actor db w t r).0)
      (sym e)
      (IsEnded-from Ran t (ctx.fresh 0) db started
        (run_execution server ctx limit actor t (ctx.fresh 0) started w).0 same
        (after_backup-IsEnded server ctx actor t (ctx.fresh 0) approved started w
          (create_backup server ctx limit w t.cr.id t.target t.files) readable rows))
