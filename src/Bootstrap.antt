-- ===== src/Bootstrap.antt =====
-- What the API does with its database when it starts: apps/api/src/bootstrap/bootstrap.service.ts. The
-- hash of a password is a library's. The keys of new rows are `fresh i`.
pub mod Extension
pub mod Accounts
use text.Mathlib.Text.{◌==◌ as str_eq}
use dbflow.Common.{
  ℕ, suc, String, ltb, ◌≡◌, refl, sym, ap, ◌∙◌, ◌↔◌, ◌⊎◌, inl, inr, Bool, true, false, not, ◌&&◌,
  ◌||◌, List, [], ◌∷◌, ◌++◌, map, Option, none, some, if◌then◌else◌, find, any, update_where,
  length, is_some, Bool-cases, Option-cases, arith,
}
use dbflow.Store.{Key, Role, User, TargetEnv, same_env, SqlReviewLevel, SqlReviewRule, Db}
use dbflow.Store
use dbflow.SqlReview.{upsert_rule}
use dbflow.Users.{find_by_email}

-- The variables DBFLOW_ADMIN_EMAIL, DBFLOW_ADMIN_PASSWORD and DBFLOW_DEMO.
pub record BootEnv : Type 0 where
  pub admin_email : Option String
  pub admin_password : Option String
  pub demo : Bool

pub record DemoUser : Type 0 where
  pub email : String
  pub name : String
  pub department : String
  pub role : Role

abbrev pub account : (String → String) → Key → DemoUser → String → User
account hash id u password = record {
  id = id;
  name = u.name;
  department = u.department;
  role = u.role;
  email = u.email;
  password_hash = hash password;
  telegram_chat_id = none;
}

abbrev pub nonempty : Option String → Option String
nonempty none = none
nonempty (some s) = if str_eq s "" then none else some s

-- `same_email` compares as the unique column does.
module _ (same_email : String → String → Bool) (hash : String → String) (fresh : ℕ → Key) where
  -- `createAdminFromEnv`, the effect on the accounts.
  unfoldable pub create_admin : Option String → Option String → List User → List User
  create_admin (some email) (some password) users =
      if any (λ u. same_email u.email email) users
      then users
      else users
        ++ (account hash (fresh 0)
              (record {
                email = email;
                name = "Administrator";
                department = "admin";
                role = Role.admin;
              })
              password
            ∷ [])
  create_admin email password users = users

  -- `user.upsert` of one demo account.
  unfoldable pub upsert_user : Key → DemoUser → List User → List User
  upsert_user id d users =
      if any (λ u. same_email u.email d.email) users
      then update_where (λ u. same_email u.email d.email)
          (λ u. record u { department = d.department; role = d.role }) users
      else users ++ (account hash id d "password1234" ∷ [])

  unfoldable pub upsert_users : ℕ → List DemoUser → List User → List User
  unfolding upsert_user
  upsert_users i [] users = users
  upsert_users i (d ∷ ds) users = upsert_users (suc i) ds (upsert_user (fresh i) d users)

-- `DEMO_USERS`, in transcription.
abbrev pub demo_users : List DemoUser
demo_users =
    record { email = "dev@dbflow.io"; name = "개발자"; department = "개발팀"; role = Role.developer }
    ∷ record { email = "dba@dbflow.io"; name = "검토자"; department = "DBA팀"; role = Role.reviewer }
    ∷ record {
      email = "approver@dbflow.io";
      name = "결재자";
      department = "인프라팀";
      role = Role.approver;
    }
    ∷ record { email = "admin@dbflow.io"; name = "관리자"; department = "운영팀"; role = Role.admin }
    ∷ []

-- `DEMO_RULE_LEVELS`, by what the destructive rules get in the environment.
abbrev demo_levels : SqlReviewLevel → List (String × SqlReviewLevel)
demo_levels strong =
    ("DROP_DATABASE", strong)
    ∷ ("DROP_TABLE", strong)
    ∷ ("TRUNCATE", strong)
    ∷ ("DELETE_WITHOUT_WHERE", strong)
    ∷ ("UPDATE_WITHOUT_WHERE", strong)
    ∷ ("ALTER_DROP_COLUMN", SqlReviewLevel.warn)
    ∷ ("DROP_INDEX", SqlReviewLevel.info)
    ∷ []

abbrev upsert_levels :
    TargetEnv → List (String × SqlReviewLevel) → List SqlReviewRule → List SqlReviewRule
upsert_levels env [] rows = rows
upsert_levels env ((key, level) ∷ rest) rows =
    upsert_levels env rest (upsert_rule env key level rows)

-- `approvalPolicy.upsert` with an empty update.
abbrev add_policy : TargetEnv → List Store.ApprovalPolicy → List Store.ApprovalPolicy
add_policy env rows =
    if any (λ (row : Store.ApprovalPolicy). same_env row.env env) rows
    then rows
    else rows ++ (record { env = env; required_approvals = 1 } ∷ [])

-- `seedDemo`.
unfoldable pub seed_demo : (String → String) → (ℕ → Key) → Db → Db
unfolding upsert_users upsert_rule
seed_demo hash fresh db = record db {
  users = upsert_users db.same_email hash fresh 1 demo_users db.users;
  sql_rules = upsert_levels TargetEnv.prod (demo_levels SqlReviewLevel.block) (
      upsert_levels TargetEnv.staging (demo_levels SqlReviewLevel.block)
        (upsert_levels TargetEnv.dev (demo_levels SqlReviewLevel.warn) db.sql_rules));
  approval_policies =
      add_policy TargetEnv.prod
        (add_policy TargetEnv.staging (add_policy TargetEnv.dev db.approval_policies));
}

-- `onApplicationBootstrap`: the database, and whether `assertAnyUserExists` lets the start go on.
unfoldable pub boot : (String → String) → (ℕ → Key) → BootEnv → Db → Db × Bool
unfolding create_admin seed_demo
boot hash fresh env db =
    let with_admin = record db {
      users =
          create_admin db.same_email hash fresh (nonempty env.admin_email)
            (nonempty env.admin_password) db.users;
    } in
    let after = if env.demo then seed_demo hash fresh with_admin else with_admin in
    (after, ltb 0 (length after.users))

-- What an account logs in with.
abbrev pub login_of : User → Key × String × String
login_of u = (u.id, u.email, u.password_hash)
