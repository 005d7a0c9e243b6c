-- ===== src/Auth.antt =====
-- Who a request comes from: apps/api/src/auth (auth.service.ts, jwt.strategy.ts, roles.guard.ts) and
-- what the exception filter of apps/api/src/audit/audit-exception.filter.ts writes. The verification of
-- a password and the signing of a token are libraries.
pub mod Login
use dbflow.Common.{
  ℕ, String, Bool, true, false, ◌||◌, List, [], ◌∷◌, Option, none, some, if◌then◌else◌, any,
  includes_text,
}
use dbflow.Store.{
  Key, Role, same_role, User, Actor, Db, Context, AuditAction, AuditTargetType, AuditTarget,
  AuditOutcome, Message, Failure, forbidden, unauthorized, Result, ok, err, ◌>>=◌, or_throw,
}
use dbflow.Audit.{build_data, build_data_of, record_log}
use dbflow.Sql.Regex.{codes}
use dbflow.Users.{UserRow, find_by_email, find_by_id}

-- The library's `verify` of a hash and a password, and `sign` of a payload.
pub record Credentials : Type 1 where
  pub Token : Type 0
  pub verify : String → String → Bool
  pub sign : Key → Role → Token

module _ (c : Credentials) where
  open c use {Token, verify, sign}

  pub record LoginResult : Type 0 where
    pub access_token : Token
    pub user : UserRow

  -- `!user || !verifyPassword(user.passwordHash, password)` fails.
  abbrev checked : Option User → String → Option User
  checked none password = none
  checked (some u) password = if verify u.password_hash password then some u else none

  -- `validateAndLogin`.
  unfoldable pub validate_and_login : Context → Db → String → String → Db × Result LoginResult
  validate_and_login ctx db email password = elim (checked (find_by_email db email) password) [
    | none ↦ (db, err (unauthorized Message.invalid_credentials))
    | some u ↦ (
      record_log ctx
          (build_data (record { user_id = u.id; role = u.role }) AuditAction.login_success
            AuditTargetType.auth (AuditTarget.row u.id) AuditOutcome.success)
          db,
      ok (record {
        access_token = sign u.id u.role;
        user = record {
          id = u.id;
          email = u.email;
          name = u.name;
          department = u.department;
          role = u.role;
        };
      }),
    )
  ]

-- `validate` of the payload of a token: the role is the account's, not the token's.
unfoldable pub validate : Db → Key → Result Actor
validate db sub = do
  u ← or_throw (find_by_id db sub) (unauthorized Message.user_gone)
  ok (record { user_id = u.id; role = u.role })

-- `canActivate`, for the roles that a handler requires and the user of the request.
unfoldable pub can_activate : List Role → Option Actor → Bool
can_activate [] user = true
can_activate (r ∷ required) none = false
can_activate (r ∷ required) (some user) = any (λ role. same_role role user.role) (r ∷ required)

-- `String(req?.url).includes('/auth/login')`.
unfoldable pub is_login_url : Context → Bool
unfolding includes_text
is_login_url ctx = includes_text (codes "/auth/login") ctx.url

-- What `catch` of the exception filter records before it answers.
unfoldable pub audit_failure : Context → Bool → Option Actor → Failure → Db → Db
audit_failure ctx is_login user (unauthorized message) db =
    if is_login
    then record_log ctx
        (build_data_of none AuditAction.login_failure AuditTargetType.auth AuditTarget.no_row
          AuditOutcome.failure)
        db
    else db
audit_failure ctx is_login user (forbidden message) db =
    record_log ctx
      (build_data_of user AuditAction.access_denied AuditTargetType.auth AuditTarget.no_row
        AuditOutcome.failure)
      db
audit_failure ctx is_login user failure db = db

-- A request to log in, with the filter.
unfoldable pub login :
    (c : Credentials) → Context → Db → String → String → Db × Result (LoginResult c)
unfolding validate_and_login audit_failure
login c ctx db email password =
    let (after, answer) = validate_and_login c ctx db email password in
    elim answer [
      | ok shown ↦ (after, ok shown)
      | err failure ↦ (audit_failure ctx (is_login_url ctx) none failure after, err failure)
    ]
