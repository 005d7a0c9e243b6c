-- ===== src/TargetDatabases.antt =====
-- The registry of target databases: apps/api/src/target-database/target-database.service.ts. The
-- encryption of a password is Crypto's; the text of a summary is left out.
pub mod Credentials
pub mod Visible
use dbflow.Common.{
  ℕ, String, ◌==◌, Bool, true, false, not, ◌&&◌, List, [], ◌∷◌, ◌++◌, map, Option, none, some,
  if◌then◌else◌, find, filter, update_where,
}
use mathlib.Core.List.{reverse}
use dbflow.Store.{
  Key, Text, Role, same_role, TargetEnv, same_env, DbType, is_mysql, TargetDatabase, Actor, Db,
  Context, AuditAction, AuditTargetType, AuditTarget, AuditOutcome, not_found, internal, Message,
  Failure, Result, ok, err, ◌>>=◌, or_throw,
}
use dbflow.Audit.{build_data, record_log}

-- `SanitizedTargetDatabase`: all but `passwordEnc`.
pub record SanitizedTargetDatabase : Type 0 where
  pub id : Key
  pub env : TargetEnv
  pub db_type : DbType
  pub name : String
  pub host : String
  pub port : ℕ
  pub username : String
  pub database : Text

-- `sanitize`.
unfoldable pub sanitize : TargetDatabase → SanitizedTargetDatabase
sanitize t = record {
  id = t.id;
  env = t.env;
  db_type = t.db_type;
  name = t.name;
  host = t.host;
  port = t.port;
  username = t.username;
  database = t.database;
}

-- `visibilityWhere`, as a test of one row.
unfoldable pub target_visible : Actor → TargetDatabase → Bool
target_visible actor t =
    if same_role actor.role Role.approver then true else same_env t.env TargetEnv.dev

abbrev pub seek : Actor → Key → Db → Option TargetDatabase
seek actor id db = find (λ t. (t.id == id) && target_visible actor t) db.targets

-- `getEntityForActor`.
unfoldable pub get_entity_for_actor : Db → Actor → Key → Result TargetDatabase
get_entity_for_actor db actor id = or_throw (seek actor id db) (not_found Message.target_not_found)

-- `findOne`.
unfoldable pub find_target_for : Db → Actor → Key → Result SanitizedTargetDatabase
find_target_for db actor id = do
  t ← or_throw (seek actor id db) (not_found Message.target_not_found)
  ok (sanitize t)

-- `list`: the newest first.
unfoldable pub list_targets : Db → Actor → List SanitizedTargetDatabase
list_targets db actor = map sanitize (reverse (filter (target_visible actor) db.targets))

-- `getOrThrow`.
unfoldable pub get_target_or_throw : Db → Key → Result TargetDatabase
get_target_or_throw db id =
    or_throw (find (λ t. t.id == id) db.targets) (not_found Message.target_not_found)

pub record CreateTargetDto : Type 0 where
  pub name : String
  pub env : TargetEnv
  pub db_type : Option DbType
  pub host : String
  pub port : ℕ
  pub username : String
  pub password : Text
  pub database : Text

pub record UpdateTargetDto : Type 0 where
  pub name : Option String
  pub env : Option TargetEnv
  pub db_type : Option DbType
  pub host : Option String
  pub port : Option ℕ
  pub username : Option String
  pub password : Option Text
  pub database : Option Text

-- `a ?? b`, and a field of an update, which `undefined` leaves as it is.
abbrev pub given_or {ℓ} : {A : Type ℓ} → Option A → A → A
given_or none b = b
given_or (some a) b = a

abbrev target_log : Context → Actor → AuditAction → Key → Db → Db
target_log ctx actor action id = record_log ctx (
    build_data actor action AuditTargetType.target_database (AuditTarget.row id)
      AuditOutcome.success)

abbrev pub new_target : Context → CreateTargetDto → Text → TargetDatabase
new_target ctx dto password_enc = record {
  id = ctx.fresh 0;
  env = dto.env;
  db_type = given_or dto.db_type DbType.mysql;
  name = dto.name;
  host = dto.host;
  port = dto.port;
  username = dto.username;
  password_enc = password_enc;
  database = dto.database;
}

abbrev pub change_target : UpdateTargetDto → Option Text → TargetDatabase → TargetDatabase
change_target dto password_enc t = record t {
  env = given_or dto.env t.env;
  db_type = given_or dto.db_type t.db_type;
  name = given_or dto.name t.name;
  host = given_or dto.host t.host;
  port = given_or dto.port t.port;
  username = given_or dto.username t.username;
  password_enc = given_or password_enc t.password_enc;
  database = given_or dto.database t.database;
}

-- `encryptSecret` throws where the key of the environment is no key.
module _ (encrypt : Text → Option Text) where
  -- `create`.
  unfoldable pub create_target :
      Context → Db → CreateTargetDto → Actor → Db × Result SanitizedTargetDatabase
  create_target ctx db dto actor = elim (encrypt dto.password) [
    | none ↦ (db, err internal)
    | some password_enc ↦
        let t = new_target ctx dto password_enc in
        (
          target_log ctx actor AuditAction.target_db_created t.id
              (record db { targets = db.targets ++ (t ∷ []) }),
          ok (sanitize t),
        )
  ]

  -- `if (dto.password !== undefined) data.passwordEnc = encryptSecret(dto.password)`.
  unfoldable pub encrypt_given : Option Text → Result (Option Text)
  encrypt_given none = ok none
  encrypt_given (some password) = elim (encrypt password) [
    | none ↦ err internal
    | some password_enc ↦ ok (some password_enc)
  ]

  -- `update`, with the row that it leaves.
  unfoldable pub update_target_db : Context → Db → Key → UpdateTargetDto → Actor → Result Db
  unfolding encrypt_given get_target_or_throw
  update_target_db ctx db id dto actor = do
    t ← get_target_or_throw db id
    password_enc ← encrypt_given dto.password
    ok (
        target_log ctx actor AuditAction.target_db_updated id (record db {
          targets = update_where (λ t. t.id == id) (change_target dto password_enc) db.targets;
        }))

  unfoldable pub update_target :
      Context → Db → Key → UpdateTargetDto → Actor → Db × Result SanitizedTargetDatabase
  update_target ctx db id dto actor = elim (update_target_db ctx db id dto actor) [
    | err e ↦ (db, err e)
    | ok after ↦ (after, do t ← get_target_or_throw after id; ok (sanitize t))
  ]

-- `remove`.
unfoldable pub remove_target : Context → Db → Key → Actor → Result Db
remove_target ctx db id actor = do
  t ← get_target_or_throw db id
  ok (
      target_log ctx actor AuditAction.target_db_deleted id
        (record db { targets = filter (λ t. not (t.id == id)) db.targets }))

pub data TestConnectionResult : Type 0 where
  mysql_only : TestConnectionResult
  connected : Text → TestConnectionResult
  unreachable : TestConnectionResult

-- `testConnection`: the probe opens a connection and asks for the version.
unfoldable pub test_connection :
    (TargetDatabase → Option Text) → Db → Key → Result TestConnectionResult
test_connection probe db id = do
  t ← get_target_or_throw db id
  ok (
      if is_mysql t.db_type
      then elim (probe t) [
        | some version ↦ TestConnectionResult.connected version
        | none ↦ TestConnectionResult.unreachable
      ]
      else TestConnectionResult.mysql_only)
