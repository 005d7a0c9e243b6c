-- ===== src/Http/Runs.antt =====
-- Histories of the API: any requests, by any users, one after the other, each run alone.
use dbflow.Common.{ℕ, ◌≡◌, subst, inl, inr, Option}
use dbflow.Store.{Key, Actor, Db, Context, Failure, Result-cases}
use dbflow.ApplySchedule.{Zone}
use dbflow.Auth.{is_login_url, audit_failure}
use dbflow.ChangeRequest.Submit.{CreateDto, create, create_db}
use dbflow.ChangeRequest.Trace.{IsTraced, SameRequests-IsTraced}
use dbflow.ChangeRequest.Preparing.{IsUnused, create-IsTraced}
use dbflow.Apply.Server.{Server}
use dbflow.Apply.Run.{apply}
use dbflow.Apply.Rollback.{rollback}
use dbflow.Apply.Histories.{apply-IsTraced}
use dbflow.Apply.RollbackHistories.{rollback-IsTraced}
use dbflow.SchemaDiff.Service.{Introspection, ApplyInput, diff_dto, apply_to_change_request}
use dbflow.Http.{Request, serve}
use dbflow.Http.Controllers.{Runtime}
use dbflow.Http.Traced.{serve-IsTraced, audit_failure-SameRequests}

-- One request that changes the database, whether it goes through or not: one of Http, an apply, a
-- rollback, a change request made of a comparison, and the audit entry of one that is refused.
pub data Step (rt : Runtime) (server : Server) (db after : Db) : Type 0 where
  serves :
      (ctx : Context) (sub : Key) (request : Request)
      → IsUnused (ctx.fresh 0) db
      → serve rt ctx db sub request ≡ after
      → Step rt server db after
  applies :
      (zone : Zone) (ctx : Context) (limit : ℕ) (actor : Actor) (cr_id target_id : Key)
      (w : server.World)
      → (apply server zone ctx limit actor cr_id target_id db w).0 ≡ after
      → Step rt server db after
  rolls_back :
      (ctx : Context) (actor : Actor) (execution_id : Key) (w : server.World)
      → (rollback server ctx actor execution_id db w).0 ≡ after
      → Step rt server db after
  bundles :
      (live : Introspection) (ctx : Context) (actor : Actor) (dto : ApplyInput)
      → IsUnused (ctx.fresh 0) db
      → (apply_to_change_request live ctx db actor dto).0 ≡ after
      → Step rt server db after
  refuses :
      (ctx : Context) (user : Option Actor) (failure : Failure)
      → audit_failure ctx (is_login_url ctx) user failure db ≡ after
      → Step rt server db after

pub data Reach (rt : Runtime) (server : Server) (db : Db) : Db → Type 0 where
  here : Reach rt server db db
  next :
      {mid after : Db}
      → Reach rt server db mid
      → Step rt server mid after
      → Reach rt server db after

create-IsTraced_any :
    (ctx : Context) (db : Db) (actor : Actor) (dto : CreateDto)
    → IsUnused (ctx.fresh 0) db
    → IsTraced db
    → IsTraced (create ctx db actor dto).0
unfolding create
create-IsTraced_any ctx db actor dto unused t = elim (Result-cases (create_db ctx db actor dto)) [
  | inr (f, e) ↦ rw (e, create) t
  | inl (after, e) ↦ rw (e, create) (create-IsTraced ctx db actor dto after unused e t)
]

bundle-IsTraced :
    (live : Introspection) (ctx : Context) (db : Db) (actor : Actor) (dto : ApplyInput)
    → IsUnused (ctx.fresh 0) db
    → IsTraced db
    → IsTraced (apply_to_change_request live ctx db actor dto).0
unfolding apply_to_change_request
bundle-IsTraced live ctx db actor dto unused t = elim (Result-cases (diff_dto live db actor dto)) [
  | inr (f, e) ↦ rw (e, apply_to_change_request) t
  | inl (request, e) ↦
      rw (e, apply_to_change_request) (create-IsTraced_any ctx db actor request unused t)
]

module _ (rt : Runtime) (server : Server) where
  Step-IsTraced : {db after : Db} → Step rt server db after → IsTraced db → IsTraced after
  Step-IsTraced {db = db} (serves ctx sub request unused e) t =
      subst IsTraced e (serve-IsTraced rt ctx db sub request unused t)
  Step-IsTraced {db = db} (applies zone ctx limit actor cr_id target_id w e) t =
      subst IsTraced e (apply-IsTraced server ctx actor zone limit cr_id target_id db w t)
  Step-IsTraced {db = db} (rolls_back ctx actor execution_id w e) t =
      subst IsTraced e (rollback-IsTraced server ctx actor execution_id db w t)
  Step-IsTraced {db = db} (bundles live ctx actor dto unused e) t =
      subst IsTraced e (bundle-IsTraced live ctx db actor dto unused t)
  Step-IsTraced {db = db} (refuses ctx user failure e) t = subst IsTraced e (
      SameRequests-IsTraced db (audit_failure ctx (is_login_url ctx) user failure db)
        (audit_failure-SameRequests ctx (is_login_url ctx) user failure db) t)

  -- However requests follow one another, each run alone, applies, rollbacks and refused requests
  -- included, the status history of every change request stays a path of the state machine from DRAFT to
  -- its stored status, if a new change request gets an unused key.
  pub Reach-IsTraced : (db after : Db) → IsTraced db → Reach rt server db after → IsTraced after
  Reach-IsTraced db after t here = t
  Reach-IsTraced db after t (next r s) = Step-IsTraced s (Reach-IsTraced db _ t r)
