-- ===== src/Store/Errors.antt =====
-- The HTTP exceptions that the services throw, by class and message key (apps/api/src/i18n/messages.ts
-- lists the keys), and `do` over results that may be one.
use dbflow.Common.{ℕ, ◌≡◌, refl, Bool, true, false, Option, none, some, ◌⊎◌, inl, inr}
use dbflow.Store.Enums.{Status}
use dbflow.Store.Rows.{Db}

pub data Message : Type 0 where
  change_request_not_found submit_author_only review_forbidden already_decided : Message
  approve_forbidden sod_violation reviewer_must_be_reviewer_role : Message
  duplicate_approvers approvers_must_be_approver_role assignees_change_forbidden : Message
  submit_requires_assignees approver_count_mismatch : ℕ → Message
  approve_invalid_status illegal_transition : Status → Message
  target_not_found dry_run_mysql_only apply_mysql_only block_lint_detected already_running : Message
  rejected_or_applied_status staging_prod_requires_final_approved : Status → Message
  dev_permission_denied staging_prod_permission_denied env_mismatch : Message
  execution_not_found must_be_apply_execution no_backup : Message
  frozen out_of_window out_of_window_next window_start_after_end window_not_found : Message
  freeze_start_after_end freeze_not_found : Message
  self_delegation_forbidden start_before_end same_role_only delegation_not_found : Message
  owner_or_admin_only : Message
  unknown_rule : Message
  schema_diff_mysql_only no_create_table_found schema_diff_no_changes : Message
  invalid_credentials user_gone invalid_body : Message
  insufficient_role : Message

-- `internal` is an exception that is no HTTP exception.
pub data Failure : Type 0 where
  bad_request forbidden not_found conflict unauthorized : Message → Failure
  internal : Failure

pub data Result (A : Type 0) : Type 0 where
  ok : A → Result A
  err : Failure → Result A

-- `if (!row) throw failure`.
abbrev pub or_throw : {A : Type 0} → Option A → Failure → Result A
or_throw none failure = err failure
or_throw (some row) failure = ok row

-- `if (!test) throw failure`.
abbrev pub guard : Bool → Failure → Result (Unit {0})
guard false failure = err failure
guard true failure = ok tt

infixl 5 ◌>>=◌
abbrev pub ◌>>=◌ : {A B : Type 0} → Result A → (A → Result B) → Result B
err failure >>= next = err failure
ok value >>= next = next value

infixl 5 ◌>>◌
abbrev pub ◌>>◌ : {B : Type 0} → Result (Unit {0}) → Result B → Result B
check >> rest = check >>= λ _. rest

pub >>=-eq-ok :
    {A B : Type 0} (first : Result A) (next : A → Result B) {b : B}
    → (first >>= next) ≡ ok b
    → (value : A) × (first ≡ ok value) × (next value ≡ ok b)
>>=-eq-ok (err failure) next e = cc
>>=-eq-ok (ok value) next e = (value, refl, e)

pub guard-eq-ok :
    (test : Bool) (failure : Failure) {u : Unit {0}} → guard test failure ≡ ok u → test ≡ true
guard-eq-ok false failure e = cc
guard-eq-ok true failure e = refl

pub or_throw-eq-ok :
    {A : Type 0} (o : Option A) (e : Failure) {a : A} → or_throw o e ≡ ok a → o ≡ some a
or_throw-eq-ok none e h = cc
or_throw-eq-ok (some b) e h = cc

pub Result-cases :
    {A : Type 0} (m : Result A) → ((a : A) × (m ≡ ok a)) ⊎ ((e : Failure) × (m ≡ err e))
Result-cases (ok a) = inl (a, refl)
Result-cases (err e) = inr (e, refl)

-- A handler gives the new state and the response: a transaction that throws changes nothing.
abbrev pub commit : {A : Type 0} → Db → Result Db → (Db → Result A) → Db × Result A
commit db (err e) respond = (db, err e)
commit db (ok after) respond = (after, respond after)
