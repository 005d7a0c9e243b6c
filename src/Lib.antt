-- ===== src/Lib.antt =====
-- dbflow is a service through which SQL changes to databases are requested, reviewed, approved by
-- several people and applied. This library models the services of its API (apps/api/src), states what
-- they guarantee and proves it.
--
-- The parts and their files:
--   Common         helpers: Boolean tests, lists as arrays and tables, membership, sorts, updates.
--   Store          the tables of apps/api/prisma/schema.prisma that the services use (Rows, Enums),
--                  the failures (Errors). The database of the API is the record `Db`; a request runs
--                  in a `Context`: the time, the keys for new rows, its URL, and whether the
--                  best-effort audit writes and the guarded policy reads succeed.
--   Audit          audit/audit.service.ts: `buildData`, `record`; Reading: `list`, `exportRows`;
--                  Csv: `toCsv`, and CsvReader, a reader to compare it with.
--   ApprovalPolicy approval-policy/approval-policy.service.ts.
--   Delegation     delegation/delegation.service.ts.
--   ChangeRequest  change-request/change-request.state-machine.ts (StateMachine) and
--                  change-request/change-request.service.ts (Records: shared lookups and checks;
--                  Views: `list`, `inbox`; Detail: `findOne`; Submit: `create`, `submit`,
--                  `setAssignees`; Decide: `review`, `approve`).
--   Sql            apply/sql-analyzer.ts (Split, Analyzer, with Regex, a matcher for the regular
--                  expressions that the source uses) and apply/lint.engine.ts (Lint).
--   SqlReview      sql-review/sql-review.service.ts.
--   ApplySchedule  apply-schedule/apply-schedule.service.ts.
--   Apply          apply/apply-policy.ts (Policy), backup.service.ts (Backup), apply.service.ts (Gate:
--                  the checks; Run: what follows them), rollback.service.ts (Rollback) and
--                  dry-run.service.ts (DryRun).
--   SchemaDiff     schema-diff/schema-model.ts (Model), schema-diff.engine.ts (Edits, Engine),
--                  desired-schema-parser.ts (Parens, Parser), schema-introspector.ts (Introspector) and
--                  schema-diff.service.ts (Service).
--   TargetDatabases target-database/target-database.service.ts.
--   Crypto         crypto/encryption.util.ts.
--   Users          users/users.service.ts.
--   Auth           auth/auth.service.ts, auth/jwt.strategy.ts, auth/roles.guard.ts, and what
--                  audit/audit-exception.filter.ts records.
--   Http           the controllers' handlers that change the state of the API (Controllers), the
--                  constraints of their bodies (Validation: the dto folders) and a request from guard
--                  to filter (`answer`, `serve`); Runs: any requests in a row, with those of Apply
--                  and SchemaDiff.
--   Config         config/validate-env.ts.
--   Bootstrap      bootstrap/bootstrap.service.ts.
--   Tests          examples on a small database.
--
-- How they interact. A service's operation becomes a function from the context, the database and the
-- arguments to a `Result`, or to the new database with the response. A transaction that throws changes
-- nothing; what is written outside a transaction stays, so an apply gives its database back also when
-- it fails. `apply` uses the policy map of SqlReview for the lint, ApplySchedule for windows and
-- freezes, and the state machine for the last transition. Decisions use Delegation. The target
-- databases and the secret of a connection are reached through libraries; they are the record `Server`
-- of operations, an argument of Backup, Run, Rollback and DryRun, whose laws are stated where they are
-- used. The time zone and the parsing of dates are arguments too.
--
-- Bounds and fuel. `findNextWindow` tries the offsets 0 to 7, a week up to the same weekday. The matcher
-- recurs on the regular expression and on the text that is left. Keys are numbers, where 0 is the empty
-- text, and texts that the analyzer reads are lists of code points.
--
-- Each request is one step: what it reads outside its transaction, as `submit` reads the status, it
-- reads together with it. Only applies and rollbacks are also taken apart, into the steps on the
-- executions that may interleave (Apply.Running).
--
-- Not modelled: the web client and the translations of messages; the handlers of the controllers that
-- only read or that reach a target database (their services are modelled, their routes are not);
-- messages' texts and metadata. No failure of the API's own database is modelled but the two kinds that
-- `Context` names and a taken email. Times of creation are the order of rows, but in the audit log's
-- reading, where the order among entries of one time is an argument. The comparison of emails is a field
-- of `Db`, as their column has a collation. Cipher, hashes, tokens, the collation of names, the search of
-- texts and information_schema are arguments.
pub mod Common
pub mod Store
pub mod Audit
pub mod Crypto
pub mod Users
pub mod Auth
pub mod Http
pub mod Config
pub mod Bootstrap
pub mod ApprovalPolicy
pub mod Delegation
pub mod ChangeRequest
pub mod Sql
pub mod SqlReview
pub mod ApplySchedule
pub mod Apply
pub mod Tests
pub mod TargetDatabases
pub mod SchemaDiff
