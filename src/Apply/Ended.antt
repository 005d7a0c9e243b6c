-- ===== src/Apply/Ended.antt =====
-- The end of an apply: its execution and the status of the change request.
use dbflow.Common.{
  ◌==◌, ◌≡◌, refl, ap, ◌∙◌, ◌⊎◌, ◌≢◌, List, [], ◌∷◌, none, inl, inr, some, find, find-update_where,
  Bool-cases, arith,
}
use dbflow.Store.{
  Key, Actor, TargetEnv, same_env, Status, TargetDatabase, File, Execution, ExecutionStatus,
  StepName, AuditAction, AuditLog, Context, Db, internal, Result, Result-cases, ok, err, ◌>>=◌,
  ◌>>◌, guard,
}
use dbflow.Store
use dbflow.ChangeRequest.StateMachine.{get_next_status}
use dbflow.ChangeRequest.Records.{find_cr, set_status, write_status}
use dbflow.ChangeRequest.Status.{find_cr-set_status}
use dbflow.Apply.Server.{Server}
use dbflow.Apply.Gate.{Ticket}
use dbflow.Apply.Run.{write_end, end_execution, finalize_success}
use dbflow.Apply.Frame.{find_execution, SameRows}

-- Each file runs on what the one before it leaves.
abbrev pub AllRun : (server : Server) → TargetDatabase → List File → server.World → Type 0
AllRun server target [] w = Unit
AllRun server target (f ∷ fs) w =
    ((server.query w target f.content).1 ≢ none)
    × AllRun server target fs (server.query w target f.content).0

-- An apply has ended: with success, where all has run, and then the request is APPLIED unless the target
-- is a development database, or with a failure, where something has not, that leaves the change requests
-- as they were.
abbrev pub IsEnded : Type 0 → Ticket → Key → Db → Db → Type 0
IsEnded HasRun t id db after =
    (e : Execution) × (find_execution id after ≡ some e)
    × (((e.status ≡ ExecutionStatus.failed)
          × (¬ HasRun)
          × (after.change_requests ≡ db.change_requests))
        ⊎ ((e.status ≡ ExecutionStatus.success)
            × HasRun
            × (((t.target.env ≡ TargetEnv.dev) × (after.change_requests ≡ db.change_requests))
                ⊎ ((c : Store.ChangeRequest) × (find_cr t.cr.id after ≡ some c)
                    × (c.status ≡ Status.applied)))))

pub IsEnded-SameRows :
    (HasRun : Type 0) (t : Ticket) (id : Key) (db mid after : Db)
    → SameRows mid after
    → IsEnded HasRun t id db mid
    → IsEnded HasRun t id db after
IsEnded-SameRows HasRun t id db mid after (same, same') (e, found, ended) = (
  e,
  ap (find (λ (e : Execution). e.id == id)) same ∙ found,
  elim ended [
    | inl (s, n, r) ↦ inl (s, n, same' ∙ r)
    | inr (s, y, inl (d, r)) ↦ inr (s, y, inl (d, same' ∙ r))
    | inr (s, y, inr (c, at, a)) ↦
        inr (s, y, inr (c, ap (find (λ (c : Store.ChangeRequest). c.id == t.cr.id)) same' ∙ at, a))
  ],
)

find-end_execution :
    (ctx : Context) (id : Key) (status : ExecutionStatus) (db : Db) (e : Execution)
    → find_execution id db ≡ some e
    → find_execution id (end_execution ctx id status db) ≡ some (write_end ctx status e)
unfolding end_execution
find-end_execution ctx id status db e found =
    find-update_where (λ (e : Execution). e.id == id) (write_end ctx status) (λ x. refl)
      db.executions e found

pub end_execution-IsEnded :
    (HasRun : Type 0) (ctx : Context) (t : Ticket) (id : Key) (db : Db) (e : Execution)
    → ¬ HasRun
    → find_execution id db ≡ some e
    → IsEnded HasRun t id db (end_execution ctx id ExecutionStatus.failed db)
unfolding end_execution
end_execution-IsEnded HasRun ctx t id db e stopped found = (
  write_end ctx ExecutionStatus.failed e,
  find-end_execution ctx id ExecutionStatus.failed db e found,
  inl (refl, stopped, refl),
)

-- The copy of the status, as the checks leave it.
abbrev pub IsApproved : Ticket → Type 0
IsApproved t = (t.target.env ≡ TargetEnv.dev) ⊎ (t.cr.status ≡ Status.final_approved)

pub finalize_success-IsEnded :
    (HasRun : Type 0) (ctx : Context) (t : Ticket) (id user : Key) (db : Db) (e : Execution)
    (c : Store.ChangeRequest)
    → HasRun
    → find_execution id db ≡ some e
    → find_cr t.cr.id db ≡ some c
    → IsApproved t
    → (done : Db) × (finalize_success ctx id t.cr t.target.env user db ≡ ok done)
      × IsEnded HasRun t id db done
unfolding finalize_success get_next_status end_execution set_status
finalize_success-IsEnded HasRun ctx t id user db e c ran found at approved =
    let ended = end_execution ctx id ExecutionStatus.success db in
    let there = find-end_execution ctx id ExecutionStatus.success db e found in
    let applied = set_status ctx t.cr.id t.cr.status Status.applied user (some "적용 완료") ended in
    elim (Bool-cases (same_env t.target.env TargetEnv.dev)) [
      | inl here ↦ (
        ended,
        ground arith,
        (write_end ctx ExecutionStatus.success e, there, inr (refl, ran, inl (ground arith, refl))),
      )
      | inr outside ↦ (
        applied,
        ground arith,
        (
          write_end ctx ExecutionStatus.success e,
          there,
          inr (
            refl,
            ran,
            inr (
              write_status ctx t.cr.id Status.applied c,
              find_cr-set_status ctx t.cr.id t.cr.status Status.applied user (some "적용 완료") ended c
                  at,
              ground arith,
            ),
          ),
        ),
      )
    ]
