-- ===== src/Audit/Reading.antt =====
-- Reading the audit log: `list` and `exportRows` of apps/api/src/audit/audit.service.ts.
use text.Mathlib.Text.{◌==◌ as str_eq}
use dbflow.Common.{
  ℕ, String, ◌==◌, leb, Bool, true, false, ◌&&◌, List, Option, none, some, if◌then◌else◌, filter,
  sort_desc, take, length, is_key, page_of, page_rows, Page,
}
use dbflow.Store.{Key, AuditAction, AuditTargetType, AuditOutcome, AuditLog}

-- A row with the time of its creation.
pub record AuditEntry : Type 0 where
  pub created_at : ℕ
  pub log : AuditLog

pub record AuditQuery : Type 0 where
  pub actor : Option Key
  pub action : Option AuditAction
  pub target_type : Option AuditTargetType
  pub outcome : Option AuditOutcome
  pub from : Option String
  pub to : Option String
  pub page : Option ℕ

action_discrete : Discrete AuditAction
action_discrete = hlevel

target_type_discrete : Discrete AuditTargetType
target_type_discrete = hlevel

outcome_discrete : Discrete AuditOutcome
outcome_discrete = hlevel

abbrev holds {ℓ} : {P : Type ℓ} → Dec P → Bool
holds (yes p) = true
holds (no p) = false

-- `...(q.x ? { x: q.x } : {})`.
abbrev unless_given : {A : Type 0} → Option A → (A → Bool) → Bool
unless_given none test = true
unless_given (some a) test = test a

-- The empty text counts as none given.
abbrev text_given : Option String → Option String
text_given none = none
text_given (some s) = if str_eq s "" then none else some s

abbrev key_given : Option Key → Option Key
key_given none = none
key_given (some k) = if k == 0 then none else some k

-- `settle` is the order in which the database takes the rows of a query; it decides among rows of the
-- same time.
module _ (parse_date : String → ℕ) where
  -- `buildWhere`, as a test of one row.
  unfoldable pub matches_query : AuditQuery → AuditEntry → Bool
  unfolding action_discrete target_type_discrete outcome_discrete
  matches_query q e =
      unless_given q.action (λ a. holds (action_discrete e.log.action a))
      && (unless_given q.target_type (λ t. holds (target_type_discrete e.log.target_type t))
          && (unless_given q.outcome (λ o. holds (outcome_discrete e.log.outcome o))
              && (unless_given (key_given q.actor) (λ k. is_key e.log.actor_id k)
                  && (unless_given (text_given q.from) (λ s. leb (parse_date s) e.created_at)
                      && unless_given (text_given q.to) (λ s. leb e.created_at (parse_date s))))))

  -- `list`.
  unfoldable pub list_audit :
      (List AuditEntry → List AuditEntry) → List AuditEntry → AuditQuery → Page AuditEntry
  unfolding matches_query page_rows
  list_audit settle table q =
      let rows = filter (matches_query q) table in
      record {
        items = page_rows 50 (page_of q.page) (sort_desc (λ e. e.created_at) (settle rows));
        total = length rows;
        page = page_of q.page;
        page_size = 50;
      }

  -- `exportRows`.
  unfoldable pub export_rows :
      (List AuditEntry → List AuditEntry) → List AuditEntry → AuditQuery → List AuditEntry
  unfolding matches_query
  export_rows settle table q =
      take 10000 (sort_desc (λ e. e.created_at) (settle (filter (matches_query q) table)))
