-- ===== src/Tests/Accounts.antt =====
-- Examples of requests, accounts, the start and the audit log.
use text.Mathlib.Text.{◌==◌ as str_eq}
use dbflow.Common.{
  includes_text, ℕ, ◌+◌, ◌≤◌, length, ◌≡◌, ◌≢◌, ◌↔◌, refl, inl, inr, sym, ◌∙◌, ◌⊎◌, true, false,
  List, [], ◌∷◌, ◌++◌, map, none, some, All, arith,
}
use dbflow.Store.{
  Key, Text, Role, TargetEnv, User, Actor, Status, Db, Context, Failure, ok, err, unauthorized,
  Message,
}
use dbflow.Sql.Regex.{codes}
use dbflow.Auth.{Credentials, LoginResult, validate, login}
use dbflow.Auth.Login.{IsAccount, IsUniqueEmail, attempt_entry, login_lem}
use dbflow.Audit.{record_log}
use dbflow.Users.{find_by_id}
use dbflow.ApplySchedule
use dbflow.ApprovalPolicy.{get_required, update_policy}
use dbflow.Http.{Request, required_roles, is_valid_body, handle, answer, serve, serve_all}
use dbflow.Http.Controllers.{Runtime, ScheduleCall, approval_policy_handler, schedule_handler}
use dbflow.Http.Confined.{IsConfined, IsUnchanged, serve-IsConfined}
use dbflow.Http.Ranges.{IsBounded}
use dbflow.Http.Bounds.{serve_all-IsBounded}
use dbflow.Audit.Csv.{Cell, cols, to_csv}
use dbflow.Audit.CsvReader.{read_csv, read_csv-to_csv}
use dbflow.Audit.CsvTexts.{value_texts, BeginsNoFormula}
use dbflow.Crypto.{load_key}
use dbflow.Config.{Env, may_start, may_start-load_key}
use dbflow.Bootstrap.{BootEnv, boot}
use dbflow.Bootstrap.Extension.{Extends}
use dbflow.Bootstrap.Accounts.{NamesAdmin, boot_lem}
use dbflow.Tests.Fixtures.{ctx, db_with}

abbrev db : Db
db = db_with Status.draft none

-- Tokens are keys and hashes the passwords themselves.
abbrev credentials : Credentials
credentials = record { Token = Key; verify = str_eq; sign = λ id role. id }

abbrev login_ctx : Context
login_ctx = record ctx { url = codes "/auth/login" }

login_ctx-includes_text : includes_text (codes "/auth/login") login_ctx.url ≡ true
unfolding includes_text
login_ctx-includes_text = refl

-- The only account with an email of its own.
abbrev one_account : Db
one_account = record db {
  users =
      record {
        id = 1;
        name = "u";
        department = "d";
        role = Role.developer;
        email = "e";
        password_hash = "h";
        telegram_chat_id = none;
      }
      ∷ [];
}

one_account-IsUniqueEmail : IsUniqueEmail one_account "e"
one_account-IsUniqueEmail u v (inl m) (inl n) e f = m ∙ sym n
one_account-IsUniqueEmail u v (inr m) n e f = absurd m
one_account-IsUniqueEmail u v (inl m) (inr n) e f = absurd n

login_lem_example :
    ((u : User) × IsAccount credentials one_account "e" "h" u
      × (shown : LoginResult credentials) × (login credentials login_ctx one_account "e" "h" ≡ (
        record one_account { audit_logs = one_account.audit_logs ++ (attempt_entry (some u) ∷ []) },
        ok shown,
      ))
      × (shown.access_token ≡ credentials.sign u.id u.role)
      × (shown.user.id ≡ u.id))
    ⊎ (((u : User) → IsAccount credentials one_account "e" "h" u → ⊥)
        × (login credentials login_ctx one_account "e" "h" ≡ (
          record one_account { audit_logs = one_account.audit_logs ++ (attempt_entry none ∷ []) },
          err (unauthorized Message.invalid_credentials),
        )))
login_lem_example =
    login_lem credentials login_ctx one_account "e" "h" refl login_ctx-includes_text
      one_account-IsUniqueEmail

abbrev pub runtime : Runtime
runtime = record {
  parse_date = λ s. some 0;
  hash = λ s. s;
  is_email = λ s. true;
  encrypt = λ t. some t;
}

-- The developer 1 asks for a change of a policy, and a new window.
abbrev policy_change : Request
policy_change = Request.approval_policy (record { env = TargetEnv.prod; required_approvals = 3 })

abbrev window_change : Request
window_change = Request.schedule (
    ScheduleCall.create_window
      (record { env = TargetEnv.prod; day_of_week = 1; start_minute = 60; end_minute = 1440 }))

serve-IsConfined_example :
    ((failure : Failure) × (validate db 1 ≡ err failure)
      × IsUnchanged ctx db (serve runtime ctx db 1 policy_change))
    ⊎ ((actor : Actor) × (validate db 1 ≡ ok actor)
        × IsConfined actor db (serve runtime ctx db 1 policy_change))
serve-IsConfined_example = serve-IsConfined runtime ctx db 1 policy_change

abbrev requests : List (Context × Key × Request)
requests = (ctx, 6, policy_change) ∷ (ctx, 6, window_change) ∷ []

-- With an administrator.
abbrev db_with_admin : Db
db_with_admin = record db {
  users =
      record {
        id = 6;
        name = "u";
        department = "d";
        role = Role.admin;
        email = "a";
        password_hash = "h";
        telegram_chat_id = none;
      }
      ∷ [];
}

serve_all-IsBounded_example :
    IsBounded (serve_all runtime requests db_with_admin)
    × (1 ≤ get_required ctx (serve_all runtime requests db_with_admin) TargetEnv.prod)
    × (get_required ctx (serve_all runtime requests db_with_admin) TargetEnv.prod ≤ 5)
serve_all-IsBounded_example =
    serve_all-IsBounded runtime requests db_with_admin ctx TargetEnv.prod (omega arith)

required_three : get_required ctx (serve_all runtime requests db_with_admin) TargetEnv.prod ≡ 3
unfolding get_required serve_all serve validate find_by_id answer required_roles is_valid_body
    handle approval_policy_handler update_policy record_log schedule_handler
    ApplySchedule.create_window
required_three = refl

abbrev csv_rows : List (Text → Cell)
csv_rows = (λ c. Cell.plain (codes "=1,\"2\"")) ∷ (λ c. Cell.null) ∷ []

abbrev to_iso : ℕ → Text
to_iso t = []

read_csv-to_csv_example :
    (read_csv (to_csv to_iso csv_rows)
      ≡ cols ∷ (map (value_texts to_iso) csv_rows ++ (([] ∷ []) ∷ [])))
    × All (All BeginsNoFormula) (map (value_texts to_iso) csv_rows)
read_csv-to_csv_example = read_csv-to_csv to_iso csv_rows

abbrev env : Env
env = record {
  jwt_secret = some (codes "a secret of many characters");
  app_encryption_key =
      some (codes "0123456789abcdef0123456789ABCDEF0123456789abcdef0123456789abcdef");
  dbflow_tz = none;
}

may_start_env : may_start (λ s. true) false env ≡ true
unfolding may_start
may_start_env = refl

may_start-load_key_example :
    (key : List ℕ) × (load_key env.app_encryption_key ≡ inr key) × (length key ≡ 32)
may_start-load_key_example = may_start-load_key (λ s. true) env may_start_env

abbrev boot_env : BootEnv
boot_env = record { admin_email = some "a"; admin_password = some "p"; demo = true }

boot_lem_example :
    Extends db.users (boot (λ s. s) (λ n. 200 + n) boot_env db).0.users
    × (((boot (λ s. s) (λ n. 200 + n) boot_env db).1 ≡ true) ↔ (
        (db.users ≢ []) ⊎ (NamesAdmin (λ s. s) (λ n. 200 + n) boot_env ⊎ (boot_env.demo ≡ true))))
boot_lem_example = boot_lem (λ s. s) (λ n. 200 + n) boot_env db
