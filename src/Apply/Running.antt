-- ===== src/Apply/Running.antt =====
-- Executions that run at the same time: the lock of `startExecution`, and what a rollback leaves.
use dbflow.Common.{
  ◌+◌, ◌≤◌, ◌==◌, Bool, true, false, ◌&&◌, ◌≡◌, refl, ◌≢◌, ◌↔◌, inl, inr, List, [], ◌∷◌, ◌++◌, some,
  any, filter, update_where, length, In, any-eq-false, any-eq-false_of, any_of_In, In-append,
  length-filter-append, ap, ◌∙◌, filter-eq-nil, Bool-cases, arith,
}
use dbflow.Store.{
  Key, Actor, TargetDatabase, Execution, ExecutionStatus, ExecutionKind, is_running, is_apply,
  Context, Db, conflict, internal, Message, Result, ok, err, ◌>>=◌, ◌>>◌, guard,
}
use dbflow.Store
use dbflow.Apply.Server.{Server}
use dbflow.Apply.Run.{
  new_execution, is_running_of, start_execution, write_end, end_execution, link_backup,
}
use dbflow.Apply.Rollback.{Plan, new_rollback, run_rollback}

-- `startExecution` succeeds exactly when no execution of the change request is running.
pub start_execution_iff :
    (ctx : Context) (db : Db) (cr_id target_id user : Key)
    → ((after : Db) × (start_execution ctx db cr_id target_id user ≡ ok after)) ↔ (
        (e : Execution)
        → In e db.executions
        → e.change_request_id ≡ cr_id
        → e.status ≢ ExecutionStatus.running)
unfolding start_execution
start_execution_iff ctx db cr_id target_id user = (
  λ (after, ok') e m same runs.
      let hit = any_of_In (is_running_of cr_id) db.executions e m (ground arith) in
      absurd (ground arith),
  λ h.
      let quiet = any-eq-false_of (is_running_of cr_id) db.executions (λ e m.
        elim (Bool-cases (is_running_of cr_id e)) [
          | inr no' ↦ no'
          | inl yes' ↦ absurd (h e m (ground arith) (ground arith))
        ]) in
      (
        record db { executions = db.executions ++ (new_execution ctx cr_id target_id user ∷ []) },
        ground arith,
      ),
)

-- A running execution that applies the change request.
abbrev pub is_running_apply : Key → Execution → Bool
is_running_apply cr_id e = is_apply e.kind && is_running_of cr_id e

-- No change request is applied twice at the same time.
abbrev pub IsExclusive : Db → Type 0
IsExclusive db = (cr_id : Key) → length (filter (is_running_apply cr_id) db.executions) ≤ 1

-- What apply attempts and rollbacks do to the executions, in any interleaving. The database that a step
-- is taken in may differ from the one that its request has read.
pub data ExecutionStep (db after : Db) : Type 0 where
  starts :
      (ctx : Context) (cr_id target_id user : Key)
      → start_execution ctx db cr_id target_id user ≡ ok after
      → ExecutionStep db after
  links : (id : Key) (b : Store.Backup) → after ≡ link_backup id b db → ExecutionStep db after
  ends :
      (ctx : Context) (id : Key) (status : ExecutionStatus)
      → is_running status ≡ false
      → after ≡ end_execution ctx id status db
      → ExecutionStep db after
  rolls_back :
      (ctx : Context) (e : Execution) (user : Key)
      → after.executions ≡ db.executions ++ (new_rollback ctx e user ∷ [])
      → ExecutionStep db after
  writes : after.executions ≡ db.executions → ExecutionStep db after

pub data Executions (db : Db) : Db → Type 0 where
  here : Executions db db
  next : {mid after : Db} → Executions db mid → ExecutionStep mid after → Executions db after

running-update_where :
    (cr_id : Key) (p : Execution → Bool) (f : Execution → Execution)
    → ((e : Execution) → is_running_apply cr_id (f e) ≡ true → is_running_apply cr_id e ≡ true)
    → (es : List Execution)
    → length (filter (is_running_apply cr_id) (update_where p f es))
      ≤ length (filter (is_running_apply cr_id) es)
running-update_where cr_id p f h [] = omega arith
running-update_where cr_id p f h (e ∷ es) = ground (arith, h e, running-update_where cr_id p f h es)

starts-IsExclusive :
    (ctx : Context) (db : Db) (cr_id target_id user : Key) (after : Db)
    → start_execution ctx db cr_id target_id user ≡ ok after
    → IsExclusive db
    → IsExclusive after
unfolding start_execution new_execution
starts-IsExclusive ctx db cr_id target_id user after e once j =
    let quiet : any (is_running_of cr_id) db.executions ≡ false = ground arith in
    let list : after.executions ≡ db.executions ++ (new_execution ctx cr_id target_id user ∷ []) =
      ground arith in
    let count : length (filter (is_running_apply j) after.executions)
        ≡ length (filter (is_running_apply j) db.executions)
          + length (filter (is_running_apply j) (new_execution ctx cr_id target_id user ∷ [])) =
      ap (λ (es : List Execution). length (filter (is_running_apply j) es)) list
      ∙ length-filter-append (is_running_apply j) db.executions
          (new_execution ctx cr_id target_id user ∷ []) in
    elim (Bool-cases (cr_id == j)) [
      | inl hit ↦
          let same : cr_id ≡ j = ground arith in
          let none' : filter (is_running_apply j) db.executions ≡ [] =
            filter-eq-nil (is_running_apply j) db.executions
              (λ x m. ground (arith, any-eq-false (is_running_of cr_id) db.executions quiet x m)) in
          rw count (rw none' (ground arith))
      | inr miss ↦ rw count (ground (arith, once j))
    ]

ExecutionStep-IsExclusive :
    {db after : Db} → ExecutionStep db after → IsExclusive db → IsExclusive after
unfolding end_execution link_backup new_rollback
ExecutionStep-IsExclusive {db} (starts ctx cr_id target_id user e) once j =
    starts-IsExclusive ctx db cr_id target_id user _ e once j
ExecutionStep-IsExclusive {db} (links id b same) once j =
    let fewer =
      running-update_where j (λ e. e.id == id) (λ e. record e { backup_id = some b.id }) (λ e h. h)
        db.executions in
    ground (arith, once j)
ExecutionStep-IsExclusive {db} (ends ctx id status over same) once j =
    let fewer =
      running-update_where j (λ e. e.id == id) (write_end ctx status) (λ e h. ground arith)
        db.executions in
    ground (arith, once j)
ExecutionStep-IsExclusive {db} (rolls_back ctx e user same) once j =
    rw
      (same, length-filter-append (is_running_apply j) db.executions (new_rollback ctx e user ∷ []))
      (ground (arith, once j))
ExecutionStep-IsExclusive {db} (writes same) once j = rw same (once j)

-- However apply attempts and rollbacks interleave, at most one apply of a change request is running.
pub Executions-IsExclusive :
    (db after : Db) → IsExclusive db → Executions db after → IsExclusive after
Executions-IsExclusive db after once here = once
Executions-IsExclusive db after once (next r s) =
    ExecutionStep-IsExclusive s (Executions-IsExclusive db _ once r)

-- A rollback that cannot connect leaves an execution RUNNING, so every later attempt to apply the same
-- change request is refused.
pub run_rollback_stuck :
    (server : Server) (ctx later : Context) (actor : Actor) (p : Plan) (db : Db) (w : server.World)
    (target_id user : Key)
    → server.connects w p.target ≡ false
    → start_execution later
        (run_rollback server ctx actor p db w).0
        p.execution.change_request_id
        target_id
        user
      ≡ err (conflict Message.already_running)
unfolding run_rollback new_rollback start_execution
run_rollback_stuck server ctx later actor p db w target_id user refused =
    let left =
      any_of_In (is_running_of p.execution.change_request_id)
        (db.executions ++ (new_rollback ctx p.execution actor.user_id ∷ []))
        (new_rollback ctx p.execution actor.user_id)
        ((In-append db.executions (new_rollback ctx p.execution actor.user_id ∷ []) _).1
          (inr (inl refl)))
        (ground arith) in
    ground arith
