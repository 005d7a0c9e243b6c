-- ===== src/Tests/Fixtures.antt =====
-- A small database, its users and a target server, for the examples.
use text.Mathlib.Text.{◌==◌ as str_eq}
use dbflow.Common.{ℕ, ◌+◌, true, false, List, [], ◌∷◌, Option, none, some}
use dbflow.Store.{
  Key, Role, Actor, User, TargetEnv, Status, SqlType, DbType, Decision, Approver, File,
  TargetDatabase, Text, Execution, ExecutionStatus, ExecutionKind, Db, Context, ApplyWindow,
  FreezePeriod,
}
use dbflow.Store
use dbflow.Sql.Regex.{codes}
use dbflow.ApplySchedule.{Zone}
use dbflow.Apply.Server.{Server}
use dbflow.Apply.Gate.{Ticket}

abbrev pub developer : Actor
developer = record { user_id = 1; role = Role.developer }

abbrev pub reviewer : Actor
reviewer = record { user_id = 2; role = Role.reviewer }

abbrev pub approver : Actor
approver = record { user_id = 3; role = Role.approver }

-- Stands in for the approver with the key 4.
abbrev pub deputy : Actor
deputy = record { user_id = 5; role = Role.approver }

abbrev user : Key → Role → User
user id role = record {
  id = id;
  name = "u";
  department = "d";
  role = role;
  email = "e";
  password_hash = "h";
  telegram_chat_id = none;
}

abbrev pub request : Status → Store.ChangeRequest
request status = record {
  id = 10;
  title = "t";
  description = "d";
  target_env = TargetEnv.staging;
  status = status;
  author_id = 1;
  reviewer_id = some 2;
  created_at = 0;
  updated_at = 0;
}

abbrev pub slot : Key → Key → ℕ → Option Decision → Approver
slot id user order decision = record {
  id = id;
  change_request_id = 10;
  user_id = user;
  order = order;
  decision = decision;
  comment = none;
  decided_at = none;
  decided_by_id = none;
}

abbrev pub update_file : File
update_file = record {
  change_request_id = 10;
  filename = "a.sql";
  sql_type = SqlType.dml;
  content = codes "UPDATE t SET a = 1 WHERE b";
  order = 1;
}

abbrev pub drop_file : File
drop_file = record update_file { content = codes "DROP TABLE t" }

abbrev pub target : TargetDatabase
target = record {
  id = 30;
  env = TargetEnv.staging;
  db_type = DbType.mysql;
  name = "t";
  host = "h";
  port = 3306;
  username = "u";
  password_enc = [];
  database = [];
}

abbrev pub ctx : Context
ctx = record {
  now = 1000;
  fresh = λ n. 100 + n;
  audit_up = true;
  policy_up = true;
  url = codes "/change-requests";
}

-- The levels of the review policy cannot be read.
abbrev pub ctx_without_policy : Context
ctx_without_policy = record ctx { policy_up = false }

abbrev pub zone : Zone
zone = record { get_day = λ t. 1; get_hours = λ t. 10; get_minutes = λ t. 30 }

-- The second slot is open; the first holds the given decision.
abbrev pub db_with : Status → Option Decision → Db
db_with status first = record {
  users =
      user 1 Role.developer
      ∷ user 2 Role.reviewer
      ∷ user 3 Role.approver
      ∷ user 4 Role.approver
      ∷ user 5 Role.approver
      ∷ [];
  change_requests = request status ∷ [];
  approvers = slot 21 3 1 first ∷ slot 22 4 2 none ∷ [];
  files = update_file ∷ [];
  history = [];
  targets = target ∷ [];
  executions = [];
  steps = [];
  backups = [];
  approval_policies = record { env = TargetEnv.staging; required_approvals = 2 } ∷ [];
  sql_rules = [];
  windows = [];
  freezes = [];
  delegations =
      record {
        id = 40;
        delegator_id = 4;
        delegate_id = 5;
        starts_at = 500;
        ends_at = 2000;
        reason = none;
        created_by_id = 4;
      }
      ∷ [];
  audit_logs = [];
  same_email = str_eq;
}

abbrev pub ticket : Ticket
ticket = record { cr = request Status.final_approved; target = target; files = update_file ∷ [] }

-- The count of the queries, and what it was where the transactions that are open began.
abbrev pub Counts : Type 0
Counts = ℕ × List ℕ

abbrev pub restored_counts : ℕ → List ℕ → Counts
restored_counts n [] = (n, [])
restored_counts n (m ∷ saved) = (m, saved)

-- A server that counts queries and answers all requests.
abbrev pub server : Server
server = record {
  World = Counts;
  decrypts = λ t. true;
  connects = λ w t. true;
  query = λ w t sql. ((w.0 + 1, w.1), some 1);
  table_exists = λ w t name. some true;
  create_statement = λ w t name. some name;
  row_count = λ w t name. some 1;
  select_all = λ w t name. some (name ∷ [], (name ∷ []) ∷ []);
  drop_table = λ w t name. (w, true);
  begin = λ w t. ((w.0, w.0 ∷ w.1), true);
  delete_all = λ w t name. (w, true);
  insert_rows = λ w t name columns rows. (w, true);
  commit = λ w t. (w, true);
  roll_back = λ w t. restored_counts w.0 w.1;
  through_json = λ text. text;
}
