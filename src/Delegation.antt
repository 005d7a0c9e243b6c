-- ===== src/Delegation.antt =====
-- Delegation of review and approval: apps/api/src/delegation/delegation.service.ts. The parsing of
-- a local time, `new Date(value + ':00')`, is a parameter; `none` is an invalid date.
pub mod Laws
pub mod Creation
use dbflow.Common.{
  ℕ, String, ◌==◌, leb, ltb, Bool, true, false, not, ◌&&◌, ◌||◌, List, [], ◌∷◌, ◌++◌, map, Option,
  none, some, if◌then◌else◌, find, any, filter, is_some, is_key, sort_desc,
}
use dbflow.Store.{
  Key, Role, same_role, User, Actor, Db, Context, AuditAction, AuditTargetType, AuditOutcome,
  AuditTarget, Failure, bad_request, forbidden, not_found, Message, Result, ok, err, ◌>>=◌, ◌>>◌,
  guard, or_throw,
}
use dbflow.Store
use dbflow.Audit.{build_data, record_log}

-- `startsAt <= now < endsAt`.
abbrev pub is_active : ℕ → Store.Delegation → Bool
is_active now d = leb d.starts_at now && ltb now d.ends_at

-- `activeDelegatorIds`.
unfoldable pub active_delegator_ids : Db → Key → ℕ → List Key
active_delegator_ids db delegate now =
    map (λ d. d.delegator_id)
      (filter (λ d. (d.delegate_id == delegate) && is_active now d) db.delegations)

-- `isActiveDelegateFor`.
unfoldable pub is_active_delegate_for : Db → Key → Key → ℕ → Bool
is_active_delegate_for db delegate delegator now = is_some (
    find (λ d. (d.delegate_id == delegate) && ((d.delegator_id == delegator) && is_active now d))
      db.delegations)

-- `list`: an administrator sees all, another user those that he gives or receives.
unfoldable pub list_delegations : Db → Actor → List Store.Delegation
list_delegations db actor =
    sort_desc (λ d. d.starts_at)
      (filter
        (λ d.
          same_role actor.role Role.admin
          || ((d.delegator_id == actor.user_id) || (d.delegate_id == actor.user_id)))
        db.delegations)

pub record CreateDto : Type 0 where
  pub delegator_id : Option Key
  pub delegate_id : Key
  pub starts_at : String
  pub ends_at : String
  pub reason : Option String

-- `a < b` on dates; a comparison with an invalid date is false.
abbrev pub date_lt : Option ℕ → Option ℕ → Bool
date_lt (some a) (some b) = ltb a b
date_lt _ _ = false

abbrev pub date_or_zero : Option ℕ → ℕ
date_or_zero none = 0
date_or_zero (some t) = t

-- Only an administrator names another delegator; the empty key counts as none given.
abbrev pub delegator_of : Actor → CreateDto → Key
delegator_of actor dto = elim dto.delegator_id [
  | none ↦ actor.user_id
  | some k ↦ if same_role actor.role Role.admin && not (k == 0) then k else actor.user_id
]

abbrev pub user_by_id : Key → Db → Option User
user_by_id k db = find (λ u. u.id == k) db.users

abbrev pub may_delegate : Role → Bool
may_delegate role = same_role role Role.reviewer || same_role role Role.approver

-- `!del || !dee || del.role !== dee.role || !ALLOWED.includes(del.role)`, negated.
abbrev pub same_allowed_role : Option User → Option User → Bool
same_allowed_role (some del) (some dee) = same_role del.role dee.role && may_delegate del.role
same_allowed_role _ _ = false

module _ (parse_date : String → Option ℕ) where
  -- `createDelegation`.
  unfoldable pub create_delegation : Context → Db → CreateDto → Actor → Result Db
  create_delegation ctx db dto actor = do
    let delegator = delegator_of actor dto
    guard (not (delegator == dto.delegate_id)) (bad_request Message.self_delegation_forbidden)
    let starts = parse_date dto.starts_at
    let ends = parse_date dto.ends_at
    guard (date_lt starts ends) (bad_request Message.start_before_end)
    guard (same_allowed_role (user_by_id delegator db) (user_by_id dto.delegate_id db))
        (bad_request Message.same_role_only)
    let row : Store.Delegation = record {
      id = ctx.fresh 0;
      delegator_id = delegator;
      delegate_id = dto.delegate_id;
      starts_at = date_or_zero starts;
      ends_at = date_or_zero ends;
      reason = dto.reason;
      created_by_id = actor.user_id;
    }
    ok (
        record_log ctx
          (build_data actor AuditAction.delegation_updated AuditTargetType.delegation
            (AuditTarget.row (ctx.fresh 0)) AuditOutcome.success)
          (record db { delegations = db.delegations ++ (row ∷ []) }))

-- `deleteDelegation`.
unfoldable pub delete_delegation : Context → Db → Key → Actor → Result Db
delete_delegation ctx db id actor = do
  row ← or_throw (find (λ d. d.id == id) db.delegations) (not_found Message.delegation_not_found)
  guard (same_role actor.role Role.admin || (row.delegator_id == actor.user_id))
      (forbidden Message.owner_or_admin_only)
  ok (
      record_log ctx
        (build_data actor AuditAction.delegation_updated AuditTargetType.delegation
          (AuditTarget.row id) AuditOutcome.success)
        (record db { delegations = filter (λ d. not (d.id == id)) db.delegations }))
