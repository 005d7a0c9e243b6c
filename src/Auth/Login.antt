-- ===== src/Auth/Login.antt =====
-- Who gets a token and what is left of an attempt (Auth).
use dbflow.Sql.Regex.{codes}
use dbflow.Common.{
  includes_text, ◌≡◌, refl, ap, ◌⊎◌, inl, inr, true, String, [], ◌∷◌, ◌++◌, Option, none, some,
  Option-cases, Bool-cases, In, find, find-In, find_of_In, arith,
}
use dbflow.Store.{
  User, Db, Context, AuditLog, AuditAction, AuditOutcome, AuditTargetType, AuditTarget, ok, err,
  unauthorized, Message,
}
use dbflow.Audit.{build_data, build_data_of, record_log}
use dbflow.Users.{find_by_email}
use dbflow.Auth.{Credentials, LoginResult, validate_and_login, audit_failure, is_login_url, login}

-- An account of the email, as the database compares emails, with this password.
abbrev pub IsAccount : Credentials → Db → String → String → User → Type 0
IsAccount c db email password u =
    In u db.users
    × (db.same_email u.email email ≡ true)
    × (c.verify u.password_hash password ≡ true)

-- The unique index: not two accounts have the email.
abbrev pub IsUniqueEmail : Db → String → Type 0
IsUniqueEmail db email =
    (u v : User)
    → In u db.users
    → In v db.users
    → db.same_email u.email email ≡ true
    → db.same_email v.email email ≡ true
    → u ≡ v

-- The entry that an attempt to log in leaves.
abbrev pub attempt_entry : Option User → AuditLog
attempt_entry none = record {
  actor_id = none;
  action = AuditAction.login_failure;
  target_type = AuditTargetType.auth;
  target_id = AuditTarget.no_row;
  outcome = AuditOutcome.failure;
}
attempt_entry (some u) = record {
  actor_id = some u.id;
  action = AuditAction.login_success;
  target_type = AuditTargetType.auth;
  target_id = AuditTarget.row u.id;
  outcome = AuditOutcome.success;
}

url_lem :
    (ctx : Context) → includes_text (codes "/auth/login") ctx.url ≡ true → is_login_url ctx ≡ true
unfolding is_login_url
url_lem ctx e = e

-- A login with the filter around it: it gives a token exactly for the email, as the database compares
-- emails, and the password of an account, and the token names that account and its role. Otherwise it is
-- refused as invalid credentials. The database is left as it was, but for one audit entry that says who
-- logged in or that nobody did, if audit writes succeed, the URL is that of a login and no two accounts
-- have the email.
pub login_lem :
    (c : Credentials) (ctx : Context) (db : Db) (email password : String)
    → ctx.audit_up ≡ true
    → includes_text (codes "/auth/login") ctx.url ≡ true
    → IsUniqueEmail db email
    → ((u : User) × IsAccount c db email password u
        × (shown : LoginResult c) × (login c ctx db email password
            ≡ (record db { audit_logs = db.audit_logs ++ (attempt_entry (some u) ∷ []) }, ok shown))
        × (shown.access_token ≡ c.sign u.id u.role)
        × (shown.user.id ≡ u.id))
      ⊎ (((u : User) → IsAccount c db email password u → ⊥)
          × (login c ctx db email password ≡ (
            record db { audit_logs = db.audit_logs ++ (attempt_entry none ∷ []) },
            err (unauthorized Message.invalid_credentials),
          )))
unfolding find_by_email login validate_and_login audit_failure record_log build_data build_data_of
login_lem c ctx db email password up url unique =
    let url : is_login_url ctx ≡ true = url_lem ctx url in
    elim (Option-cases (find (λ (u : User). db.same_email u.email email) db.users)) [
      | inl none' ↦ inr (
        λ u (m, same, v).
            let (w, found) =
              find_of_In (λ (u : User). db.same_email u.email email) db.users u m same in
            cc,
        ground arith,
      )
      | inr (u, found) ↦
          let (m, same) = find-In (λ (u : User). db.same_email u.email email) db.users u found in
          elim (Bool-cases (c.verify u.password_hash password)) [
            | inl yes' ↦ inl (
              u,
              (m, same, yes'),
              record {
                access_token = c.sign u.id u.role;
                user = record {
                  id = u.id;
                  email = u.email;
                  name = u.name;
                  department = u.department;
                  role = u.role;
                };
              },
              ground arith,
              refl,
              refl,
            )
            | inr no' ↦ inr (
              λ v (m', same', right).
                  let e : u ≡ v = unique u v m m' same same' in
                  cc (no', right, ap (λ (w : User). c.verify w.password_hash password) e),
              ground arith,
            )
          ]
    ]
